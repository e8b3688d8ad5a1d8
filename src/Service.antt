-- ===== src/Service.antt =====
-- The service as a whole: what a request, a task or a command can do to the shared state, one after the
-- other (src/main.rs, src/handlers.rs, src/admin.rs, src/cli.rs), and what holds of every state reached.
pub mod Rows
pub mod Sound
pub mod Kept
pub mod Queries
pub mod Guards
pub mod Requests
pub mod Uploading
pub mod Leads
pub mod Added
pub mod Forms
pub mod Moderation
pub mod Administration
pub mod Commands
pub mod Blacklists
pub mod Maintenance
pub mod Reach
pub mod Preserved
pub mod Named
pub mod Overlapped
pub mod Gone
pub mod Daily
pub mod Found
pub mod Linked
pub mod Links
mod Tests
