-- ===== src/Credentials.antt =====
-- The crate `psky-credentials` (crates/psky-credentials/src/lib.rs): the private credentials of one
-- account, as a store whose operations are SQLite transactions.
pub mod Types
pub mod Identity
pub mod Revision
pub mod Tokens
pub mod Store
pub mod Sessions
