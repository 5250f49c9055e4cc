-- ===== src/Store.antt =====
-- internal/store: the records that the control plane keeps, and the leases on them.
pub mod Records
pub mod Leases
pub mod Sandboxes
