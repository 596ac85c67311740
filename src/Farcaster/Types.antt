-- ===== src/Farcaster/Types.antt =====
-- The data of crates/psky-farcaster-auth (lib.rs, message.rs, client.rs), and what it takes from other crates.
use psky.Prelude.{ℕ, Bool, Option, Bytes, List}
use psky.Prelude.Int.{ℤ}
use psky.Json.{Value}
use psky.Url.{Url}
use psky.Http.{Response}

pub data AuthError : Type 0 where
  invalid_config invalid_challenge invalid_relay_response channel_expired unavailable : AuthError
  invalid_message invalid_signature unsupported_wallet invalid_chain_evidence unauthorized :
      AuthError

pub record Challenge : Type 0 where
  pub nonce : Bytes
  pub created_at : ℕ
  pub expires_at : ℕ

pub record Channel : Type 0 where
  pub channel_token : Bytes
  pub auth_url : Bytes

pub record SignedProof : Type 0 where
  pub message : Bytes
  pub signature : Bytes

pub data ChannelStatus : Type 0 where
  pending : ChannelStatus
  completed : SignedProof → ChannelStatus

pub data ProofKind : Type 0 where
  custody auth_address : ProofKind

pub data WalletKind : Type 0 where
  eoa erc1271 : WalletKind

pub record VerifiedIdentity : Type 0 where
  pub fid : ℕ
  pub address : Bytes
  pub custody_address : Bytes
  pub wallet_kind : WalletKind
  pub proof_kind : ProofKind
  pub checked_block : ℕ
  pub block_hash : Bytes
  pub checked_at : ℕ

-- `siwe::TimeStamp`, by what is read of it.
pub record Time : Type 0 where
  pub unix_timestamp : ℤ
  pub nanosecond : ℕ

-- `siwe::Message`; a URI and an authority are their texts.
pub record Message : Type 0 where
  pub domain : Bytes
  pub address : Bytes
  pub statement : Option Bytes
  pub uri : Bytes
  pub chain_id : ℕ
  pub nonce : Bytes
  pub issued_at : Time
  pub expiration_time : Option Time
  pub not_before : Option Time
  pub request_id : Option Bytes
  pub resources : List Bytes

pub record ParsedProof : Type 0 where
  pub message : Message
  pub fid : ℕ
  pub signature : Bytes
  pub digest : Bytes

pub record AuthConfig : Type 0 where
  pub domain : Bytes
  pub uri : Bytes
  pub relay_url : Bytes
  pub optimism_rpc_url : Bytes

pub record AuthClient : Type 0 where
  pub config : AuthConfig
  pub relay : Url
  pub rpc : Url

-- The answers of the relay that are deserialized.
pub record Created : Type 0 where
  pub token : Bytes
  pub url : Bytes
  pub nonce : Bytes

pub record Status : Type 0 where
  pub state : Bytes
  pub message : Option Bytes
  pub signature : Option Bytes

-- A request that the client builds.
pub data Request : Type 0 where
  post : (url : Url) (body : Bytes) → Request
  get : (url : Url) (bearer : Bytes) → Request

-- The crates that are called: `siwe`, `time`, `sha3`, `hex`, `url`, `serde_json` and `reqwest`. In one
-- operation of the client no request is sent twice, so that the answers are a function of the requests.
pub record Env : Type 0 where
  pub parse_message : Bytes → Option Message
  pub show_message : Message → Bytes
  pub verify_eip191 : Message → Bytes → Bool
  -- A number of seconds as RFC 3339, where there is such a date.
  pub format_rfc3339 : ℕ → Option Bytes
  pub keccak256 : Bytes → Bytes
  pub hex_encode : Bytes → Bytes
  pub hex_decode : Bytes → Option Bytes
  pub parse_url : Bytes → Option Url
  pub join : Url → Bytes → Option Url
  pub from_slice : Bytes → Option Value
  pub to_string : Value → Bytes
  pub decode_created : Bytes → Option Created
  pub decode_status : Bytes → Option Status
  pub answer : Request → Response
