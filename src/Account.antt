-- ===== src/Account.antt =====
-- crates/psky/src/account.rs: who may use the account, and `AccountSettings` of crates/psky/src/settings.rs.
pub mod Types
pub mod Settings
pub mod Failures
pub mod Authority
pub mod Limits
pub mod State
pub mod SignIn
pub mod Actions
