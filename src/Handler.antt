-- ===== src/Handler.antt =====
-- The handlers of a flow: server/src/api/v1/executor.rs and server/src/service/user.rs.
pub mod Users
pub mod Submission
pub mod Complete
pub mod Verified
pub mod Authentication
pub mod Login
pub mod Tokens
pub mod Requests
pub mod Posts
pub mod Search
pub mod UserInfo
