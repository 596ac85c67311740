-- ===== src/Hypersnap.antt =====
-- crates/psky-hypersnap: bounded, read-only checks of nodes.
pub mod Types
pub mod Config
pub mod Parse
pub mod Authority
pub mod Request
pub mod Node
pub mod Run
