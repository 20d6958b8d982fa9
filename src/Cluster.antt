-- ===== src/Cluster.antt =====
-- What the operator talks to: the Kubernetes objects it builds, the client of the API server, and
-- the actions that use it.
pub mod Objects
pub mod Client
pub mod Exec
pub mod Keeps
pub mod Costs
pub mod Raises
