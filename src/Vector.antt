-- ===== src/Vector.antt =====
-- crates/m3-vector: the resident vector index.
pub mod Single
pub mod Index
pub mod Upsert
pub mod History
pub mod Heap
pub mod Search
mod Tests
