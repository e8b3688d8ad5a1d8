-- ===== src/Pow.antt =====
-- src/pow.rs: stateless proof-of-work challenges.
pub mod Token
pub mod Sound
mod Tests
