-- ===== src/Handlers.antt =====
-- The handlers of src/handlers.rs, with the slugs and lifetimes of src/upload.rs and the pages of
-- src/templates.rs.
pub mod Reply
pub mod Gates
pub mod Slug
pub mod Types
pub mod Process
pub mod Upload
pub mod Captcha
pub mod Scans
pub mod Download
pub mod Escape
pub mod Allocated
pub mod Admitted
pub mod Stored
pub mod Fetched
pub mod Served
pub mod Infected
pub mod Samples
mod Tests
mod FetchTests
mod LifetimeTests
pub mod Downloaded
pub mod Expiry
pub mod Pages
