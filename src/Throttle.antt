-- ===== src/Throttle.antt =====
-- src/rate_limit.rs: the byte throttle and the body that is paced by it.
pub mod Bucket
pub mod Bounds
pub mod Body
pub mod Delivered
mod Tests
