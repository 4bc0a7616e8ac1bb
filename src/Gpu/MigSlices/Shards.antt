-- ===== src/Gpu/MigSlices/Shards.antt =====
-- internal/gpu/migslices.go: the sharding of the counter sets and devices of a node.
pub mod Chunks
pub mod Coverage
pub mod Consistency
