-- ===== src/Farcaster.antt =====
-- crates/psky-farcaster-auth: sign-in through a relay, checked against the registries on Optimism.
pub mod Types
pub mod Message
pub mod Words
pub mod Urls
pub mod Transport
pub mod Client
