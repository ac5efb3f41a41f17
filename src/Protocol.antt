-- ===== src/Protocol.antt =====
-- packages/protocol/src: the values that are persisted and exchanged. The children hold the JSON
-- values, the phases, the shapes of the records and the refinements of the schemas.
pub mod Json
pub mod Phase
pub mod Records
pub mod Refine
