-- ===== src/Storage.antt =====
-- The crate `storage` (storage/src).
pub mod Proxy
pub mod Snapshot
pub mod Faithful
pub mod Reverse
pub mod Ready
pub mod Recorded
pub mod Returns
pub mod Sql
pub mod Loaders
pub mod Dummy
pub mod DummyExecutor
