-- ===== src/Providers.antt =====
-- internal/providers: what the control plane runs sandboxes with.
pub mod RingBuffer
pub mod Registry
