-- ===== src/Db.antt =====
-- The database: the tables of src/model.rs and migrations/, and the queries of src/db.rs.
pub mod Model
pub mod World
pub mod Answered
pub mod Uploads
pub mod Deletes
pub mod Bans
pub mod Listing
pub mod Listed
pub mod Hourly
pub mod Stats
pub mod Columns
pub mod Deleted
pub mod Updated
pub mod Banned
mod Tests
pub mod Samples
