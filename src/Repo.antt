-- ===== src/Repo.antt =====
-- The crate `psky-repo` (crates/psky-repo/src): repositories of records, their Merkle search tree and
-- their export.
pub mod Error
pub mod Syntax
pub mod Library
pub mod Ipld
pub mod Records
pub mod Mst
pub mod Car
pub mod Repository
