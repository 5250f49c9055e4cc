-- ===== src/Worker.antt =====
-- The workers: the messages that they are sent (internal/workerproto), and the server that answers
-- them (internal/worker/rpc.go).
pub mod Protocol
pub mod Rpc
