-- ===== src/Rpc.antt =====
-- packages/provider-pi/src/rpc-client.ts: the events that a worker process sends.
pub mod Queue
pub mod Order
