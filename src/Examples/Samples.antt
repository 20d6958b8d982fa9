-- ===== src/Examples/Samples.antt =====
-- A sample with two labels.
