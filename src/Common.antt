-- ===== src/Common.antt =====
-- The crate `common`: the types and protocols that the services share.
pub mod Lsn
pub mod Bytes
pub mod WalService
pub mod PageService
pub mod Page
pub mod Ids
mod Tests
