-- ===== src/Api.antt =====
-- server/src/api/mod.rs, and the shape of a handler.
pub mod Error
pub mod Monad
pub mod Session
pub mod Answers
pub mod Access
pub mod Service
pub mod Wrapped
pub mod Layers
pub mod Reached
