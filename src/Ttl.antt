-- ===== src/Ttl.antt =====
-- src/ttl_cache.rs: the keyed cache with a time to live, alone and shared by tasks.
pub mod Cache
pub mod Laws
pub mod Shared
mod Tests
