-- ===== src/PolicyEngine.antt =====
-- The crate `policy-engine` (policy-engine/src). The script engine itself (rhai) is a parameter.
pub mod Uri
pub mod Getters
pub mod Script
pub mod Network
pub mod Users
