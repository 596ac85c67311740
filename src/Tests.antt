-- ===== src/Tests.antt =====
-- Runs of the model on concrete inputs.
mod Sample
mod RepoTests
mod CommitTests
mod JournalTests
mod Environment
mod CredentialTests
mod HypersnapTests
mod FarcasterTests
mod AccountTests
