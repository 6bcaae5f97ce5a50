-- ===== src/Executor.antt =====
-- The flow executor: server/src/executor.rs and server/src/executor.
pub mod State
pub mod Fields
pub mod Externals
pub mod Entries
pub mod Checks
pub mod Access
pub mod Component
pub mod Progress
pub mod Registry
pub mod Found
pub mod Started
pub mod Shown
pub mod Total
pub mod Starts
pub mod Validate
pub mod Logs
