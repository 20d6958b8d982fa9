-- ===== src/Subreconcilers.antt =====
-- internal/controller/subreconcilers/: the desired child resources and how they are applied.
pub mod Labels
pub mod Deployment
pub mod Service
pub mod Hpa
pub mod Networking
pub mod Pdb
pub mod ServiceMonitor
pub mod Apply
pub mod Reconcilers
pub mod Selectors
pub mod Scaling
