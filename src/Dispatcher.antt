-- ===== src/Dispatcher.antt =====
-- crates/m3-dispatcher/src/lib.rs: the coalescing dispatcher in front of a model backend.
pub mod Queue
pub mod Latency
pub mod Breaker
pub mod Batch
pub mod Scheduler
