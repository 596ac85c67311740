-- ===== src/Credentials/Types.antt =====
-- The data of crates/psky-credentials/src/lib.rs, and what it takes from other crates.
use psky.Prelude.{ℕ, Bool, Option, Bytes, List}
use psky.Json.{Value}
use psky.Url.{Url}
use psky.Repo.Library.{Library}

pub data Error : Type 0 where
  invalid_input invalid_credentials invalid_token expired_token not_bound disabled : Error
  binding_conflict limit persistence : Error

pub record Identity : Type 0 where
  pub handle : Bytes
  pub did : Bytes
  pub service_url : Bytes
  pub service_did : Bytes

pub record Account : Type 0 where
  pub fid : ℕ
  pub authority : Bytes
  pub identity : Identity
  pub enabled : Bool
  pub created_at : ℕ
  pub public_key_multibase : Bytes
  pub repo_revision : Bytes
  pub repo_cid : Bytes

pub record PasswordInfo : Type 0 where
  pub name : Bytes
  pub created_at : ℕ

pub record IssuedPassword : Type 0 where
  pub info : PasswordInfo
  pub password : Bytes

pub record SessionInfo : Type 0 where
  pub handle : Bytes
  pub did : Bytes
  pub did_doc : Value
  pub email_confirmed : Bool
  pub email_auth_factor : Bool
  pub active : Bool

pub record Session : Type 0 where
  pub access_jwt : Bytes
  pub refresh_jwt : Bytes
  pub info : SessionInfo

pub record Claims : Type 0 where
  pub sub : Bytes
  pub aud : Bytes
  pub scope : Bytes
  pub iat : ℕ
  pub exp : ℕ
  pub jti : Bytes
  pub sid : Bytes

pub record Header : Type 0 where
  pub alg : Bytes
  pub typ : Bytes

-- The rows of the tables `passwords`, `sessions` and `account`.
pub record PasswordRow : Type 0 where
  pub name : Bytes
  pub salt : Bytes
  pub verifier : Bytes
  pub created_at : ℕ

pub record SessionRow : Type 0 where
  pub id : Bytes
  pub password_name : Bytes
  pub refresh_jti : Bytes
  pub refresh_exp : ℕ

pub record AccountRow : Type 0 where
  pub document : Bytes
  pub repo_key : Bytes

-- The database, and the key of the tokens, which `open` read from its table `secrets`.
pub record Store : Type 0 where
  pub jwt_key : Bytes
  pub account : Option AccountRow
  pub passwords : List PasswordRow
  pub sessions : List SessionRow
  pub evidence : Option Bytes

-- The crates that are called: `url`, `base64`, `hmac`, `sha2`, `serde_json`, `bs58`, and `psky_repo`'s own.
pub record Env : Type 1 where
  pub repo : Library
  pub parse_url : Bytes → Option Url
  -- The engine `URL_SAFE_NO_PAD`.
  pub base64_encode : Bytes → Bytes
  pub base64_decode : Bytes → Option Bytes
  pub hmac : Bytes → Bytes → Option Bytes
  pub encode_header : Header → Option Bytes
  pub decode_header : Bytes → Option Header
  pub encode_claims : Claims → Option Bytes
  pub decode_claims : Bytes → Option Claims
  pub encode_account : Account → Option Bytes
  pub decode_account : Bytes → Option Account
  pub base58_encode : Bytes → Bytes
