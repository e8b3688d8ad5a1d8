-- ===== src/Cli.antt =====
-- The commands of src/cli.rs. The parsing of the arguments is a library's, as are the migrations; what
-- is only logged is left out. The runs of `dedup`, `rehash` and `rensfw` are those of Dedup and Nsfw.
pub mod Lines
pub mod Deletes
pub mod Blacklists
pub mod Bans
pub mod Stored
pub mod Run
pub mod Agreed
mod Tests
