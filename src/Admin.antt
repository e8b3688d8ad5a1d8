-- ===== src/Admin.antt =====
-- The admin API (src/admin.rs): who may call it, what it answers, and its routes.
pub mod Auth
pub mod Reply
pub mod Uploads
pub mod Bans
pub mod Api
pub mod Guarded
pub mod Enforced
pub mod Unbanned
mod Tests
