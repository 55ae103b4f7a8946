-- ===== src/Dispatchd/Hub/Accounts.antt =====
-- No ring is lost silently: an account of every ring that a reader set has not heard of.
pub mod Order
pub mod Invariant
pub mod Reached
pub mod Delivery
