-- ===== src/Policies.antt =====
-- The policies of the server: server/src/service/policy/service.rs and server/src/api/v1/policy.rs.
pub mod Service
pub mod Cache
pub mod Api
pub mod Body
pub mod Creation
pub mod Listing
pub mod Answered
