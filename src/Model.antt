-- ===== src/Model.antt =====
-- The crate `authust-model` (model/src): the data that the other parts share.
pub mod Query
pub mod User
pub mod Policy
pub mod Prompt
pub mod Stage
pub mod Flow
pub mod Tenant
pub mod Error
pub mod Data
