-- ===== src/Account/Types.antt =====
-- The data of crates/psky/src/account.rs, and what it takes from other crates.
use psky.Prelude.{ℕ, Bool, Option, Bytes, List}
use psky.Prelude.Sorted.{Map}
use psky.Json.{Value}
use psky.Url.{Url}
use psky.Credentials.Types as CredentialTypes
use psky.Farcaster.Types as AuthTypes

pub record AccountSettings : Type 0 where
  pub enabled : Bool
  pub service_url : Bytes
  pub allowed_fid : Option ℕ
  pub optimism_rpc_url : Bytes

-- What the reply to a sign-in that is complete says.
pub record Completion : Type 0 where
  pub account_token : Bytes
  pub fid : ℕ
  pub handle : Bytes
  pub service_url : Bytes
  pub expires_at : ℕ

-- What is drawn at random for one action, and the clock's readings behind the answers of the relay and
-- of Optimism.
pub record Draws : Type 0 where
  pub random : Bytes
  pub salt : Bytes
  pub sid : Bytes
  pub refresh_jti : Bytes
  pub access_jti : Bytes
  pub nonce : Bytes
  pub request_id : Bytes
  pub poll_token : Bytes
  pub key : Bytes
  pub account_token : Bytes
  pub verified_at : ℕ
  pub settled_at : ℕ

-- An attempt to sign in; its completion is the reply that is given again.
pub record Pending : Type 0 where
  pub poll_hash : Bytes
  pub challenge : AuthTypes.Challenge
  pub channel : Bytes
  pub proof : Option AuthTypes.SignedProof
  pub last_poll : ℕ
  pub completion : Option Completion

pub record Evidence : Type 0 where
  pub identity : AuthTypes.VerifiedIdentity
  pub proof : AuthTypes.SignedProof

-- The state behind the lock; a `HashMap` is kept in the order of its keys.
pub record Core : Type 0 where
  pub settings : AccountSettings
  pub store : CredentialTypes.Store
  pub pending : Map Bytes Pending
  pub grants : Map Bytes ℕ
  pub start_times : List ℕ
  pub password_times : List ℕ
  pub checked_at : Option ℕ
  pub events : List Value
  pub next_event : ℕ

-- What a client is told: the status, the code and the message.
pub record Failure : Type 0 where
  pub status : ℕ
  pub code : Bytes
  pub message : Bytes

-- The crates that are called, with `url`, `sha2`, `qrcode` and the JSON of the evidence.
pub record Env : Type 1 where
  pub credentials : CredentialTypes.Env
  pub auth : AuthTypes.Env
  pub sha256 : Bytes → Bytes
  -- `url.origin().ascii_serialization()`
  pub origin_text : Url → Bytes
  -- A text as the data URL of a QR code.
  pub qr_code : Bytes → Option Bytes
  pub encode_evidence : Evidence → Option Bytes
  pub decode_evidence : Bytes → Option Evidence
