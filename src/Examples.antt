-- ===== src/Examples.antt =====
-- The theorems at concrete applications, on a small cluster of their own.
mod Fixtures
mod Types
mod Children
mod Steady
mod Applies
mod Runs
mod Faults
mod Clusters
mod Lifecycles
mod Sequences
mod Tallies
mod Copies
mod Process
mod Samples
