-- ===== src/Safekeeper.antt =====
-- The crate `safekeeper`.
pub mod Consensus
pub mod Storage
pub mod Server
pub mod Group
mod Tests
mod GroupTests
