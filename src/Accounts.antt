-- ===== src/Accounts.antt =====
-- src/modules/accounts: the services on customers, their tokens and sessions, and on staff.
pub mod Tokens
pub mod Register
pub mod Password
pub mod EmailChange
pub mod Sessions
pub mod Login
pub mod Mfa
pub mod StaffActions
pub mod Api
pub mod UniqueEmails
pub mod Intact
