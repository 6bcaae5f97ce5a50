-- ===== src/Storage/Loaders.antt =====
-- The executors of storage/src/{prompt,tenant,policy,stage,flow}.rs, which load rows as data.
pub mod Common
pub mod Prompts
pub mod Tenants
pub mod Policies
pub mod Stages
pub mod Flows
pub mod Table
pub mod Keys
pub mod Manager
pub mod Loaded
pub mod Kinds
pub mod Datacache
