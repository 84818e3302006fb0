-- ===== src/Accounts/Api.antt =====
-- src/modules/accounts/api: the serializers, the views of the storefront and of the
-- administration, and the routes that lead to them.
pub mod Forms
pub mod Storefront
pub mod Admin
pub mod Routes
pub mod Throttles
pub mod SharedScope
pub mod Access
pub mod SessionList
pub mod Bootstrap
pub mod NoEnumeration
