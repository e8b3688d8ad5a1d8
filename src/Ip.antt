-- ===== src/Ip.antt =====
-- src/ip.rs: addresses and their stored form, CIDR blocks, and the client behind trusted proxies.
pub mod Addr
pub mod Octets
pub mod Quota
pub mod Cidr
pub mod Blocks
pub mod Xff
pub mod Trust
mod Tests
