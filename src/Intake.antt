-- ===== src/Intake.antt =====
-- The reading of an uploaded file (src/upload.rs).
pub mod Sniff
pub mod Reader
pub mod Received
mod Tests
