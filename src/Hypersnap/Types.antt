-- ===== src/Hypersnap/Types.antt =====
-- The data of crates/psky-hypersnap/src/lib.rs.
use Prim.Native.String.{String}
use psky.Prelude.{ℕ, Bool, Option, Bytes, List}
use psky.Url.{Url}

pub data Network : Type 0 where
  mainnet testnet devnet : Network

-- A duration is its number of nanoseconds.
pub record PreflightConfig : Type 0 where
  pub endpoints : List Url
  pub expected_network : Network
  pub test_fid : Option ℕ
  pub timeout : ℕ
  pub max_response_bytes : ℕ
  pub max_block_delay_secs : ℕ

pub record ConfigError : Type 0 where
  pub message : String

pub data Compatibility : Type 0 where
  compatible incompatible unknown : Compatibility

pub data Freshness : Type 0 where
  fresh lagging unknown : Freshness

pub data Failure : Type 0 where
  timeout transport redirect unavailable http_status oversized malformed : Failure

pub record RequestEvidence : Type 0 where
  pub route : Bytes
  pub status : Option ℕ
  pub response_bytes : ℕ
  pub failure : Option Failure

pub record ShardInfo : Type 0 where
  pub shard_id : ℕ
  pub max_height : ℕ
  pub block_delay_seconds : ℕ
  pub num_messages : Option ℕ

pub record NodeInfo : Type 0 where
  pub version : Bytes
  pub num_shards : ℕ
  pub num_messages : Option ℕ
  pub peer_id : Option Bytes
  pub shard_infos : List ShardInfo

pub record StoreLimit : Type 0 where
  pub name : Bytes
  pub limit : ℕ
  pub used : ℕ

pub record StorageAllocation : Type 0 where
  pub units : ℕ
  pub limits : List StoreLimit

pub record AuthorityObservation : Type 0 where
  pub registry_events : ℕ
  pub reported_custody : Option Bytes
  pub verified : Bool

pub record NodeReport : Type 0 where
  pub endpoint : Bytes
  pub info : Option NodeInfo
  pub reachable : Bool
  pub protocol : Compatibility
  pub network : Compatibility
  pub freshness : Freshness
  pub peer_unique : Option Bool
  pub healthy : Bool
  pub observed_network : Option Network
  pub storage : Option StorageAllocation
  pub authority : Option AuthorityObservation
  pub requests : List RequestEvidence

pub record PreflightReport : Type 0 where
  pub expected_network : Network
  pub test_fid : Option ℕ
  pub compatible : Bool
  pub healthy : Bool
  pub max_block_delay_seconds : ℕ
  pub distinct_peer_count : ℕ
  pub ready_for_reconstruction : Bool
  pub nodes : List NodeReport
  pub limitations : List Bytes

-- Boolean tests for the derived equalities that the program uses.
abbrev pub same_network : Network → Network → Bool
same_network mainnet mainnet = Bool.true
same_network testnet testnet = Bool.true
same_network devnet devnet = Bool.true
same_network _ _ = Bool.false

abbrev pub is_compatible : Compatibility → Bool
is_compatible compatible = Bool.true
is_compatible _ = Bool.false

abbrev pub is_fresh : Freshness → Bool
is_fresh fresh = Bool.true
is_fresh _ = Bool.false
