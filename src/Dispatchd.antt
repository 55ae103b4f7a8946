-- ===== src/Dispatchd.antt =====
-- crates/m3-dispatchd: the doorbell daemon.
pub mod Addressing
pub mod Keys
pub mod Hub
pub mod Api
