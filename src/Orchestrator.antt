-- ===== src/Orchestrator.antt =====
-- internal/orchestrator: the control plane.
pub mod Events
pub mod VmPool
pub mod Placement
pub mod Admission
pub mod Lifecycle
pub mod Reconcile
