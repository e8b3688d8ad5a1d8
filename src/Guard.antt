-- ===== src/Guard.antt =====
-- What stands before an upload or a download: the caches of src/ban_cache.rs and src/challenge.rs.
pub mod BanCache
pub mod Challenge
pub mod Verified
pub mod Fresh
mod Tests
