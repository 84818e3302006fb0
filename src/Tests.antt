-- ===== src/Tests.antt =====
-- Concrete runs of the modelled code.
pub mod Samples
pub mod Framework
pub mod Api
pub mod SignIn
pub mod Accounts
pub mod Catalog
pub mod Content
mod Server
