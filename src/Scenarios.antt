-- ===== src/Scenarios.antt =====
-- Concrete runs of the server: a small tenant with one user and one login flow.
pub mod Fixtures
pub mod Sources
pub mod Csrf
pub mod Executor
pub mod Checks
pub mod Api
pub mod Handler
pub mod Database
pub mod Loaders
pub mod Policies
pub mod Pages
pub mod Server
