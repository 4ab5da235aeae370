-- ===== src/Pageserver.antt =====
-- The crate `pageserver`.
pub mod Page
pub mod Codec
pub mod WalDecode
pub mod Redo
pub mod Layer
pub mod Repository
pub mod WalReceiver
pub mod Timeline
pub mod Tenant
pub mod Service
mod Tests
mod WalTests
mod ServiceTests
