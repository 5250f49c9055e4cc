-- ===== src/Api.antt =====
-- internal/api: who may call the control plane, and for what.
pub mod WorkerAuth
pub mod Keys
pub mod Policy
pub mod RateLimit
