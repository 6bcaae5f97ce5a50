-- ===== src/Interface.antt =====
-- The pages of the server (server/src/interface/flow.rs), and its start (server/src/main.rs).
pub mod Defaults
pub mod Redirect
pub mod Found
pub mod Startup
pub mod Running
pub mod Configuration
