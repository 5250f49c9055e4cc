-- ===== src/Orchestrator/Admission.antt =====
-- internal/orchestrator/manager.go: whether a spawn request is let in. The rows of the store, the
-- clock and the settings of the manager are arguments.
pub mod Quota
pub mod Decision
pub mod Queue
