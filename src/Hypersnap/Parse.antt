-- ===== src/Hypersnap/Parse.antt =====
-- The parsers of the answers in crates/psky-hypersnap/src/lib.rs.
pub mod Shards
use psky.Prelude.{
  ℕ, ◌+◌, ◌-◌, ◌^◌, min, Bool, true, false, not, ◌&&◌, ◌||◌, Option, none, some, Bytes, bytes_ord,
  ◌=?◌, Result, ok, err, List, [], ◌∷◌, ◌++◌, leb, ltb, ◌==◌, if◌then◌else◌, length, any, all,
}
use psky.Prelude.Optional.{◌>>=◌, ◌>>◌, ensure}
use psky.Prelude.Text.{codes, is_ascii_alphanumeric, one_of}
use psky.Json.{Value, get, get_field, as_str, as_u64, as_array, as_object}
use psky.Hypersnap.Types.{
  Network, mainnet, testnet, devnet, ShardInfo, NodeInfo, StoreLimit, StorageAllocation, Freshness,
  lagging, fresh,
}

-- `Value::as_u64` and `Value::as_str` compared with a pattern.
abbrev is_number : ℕ → Option ℕ → Bool
is_number n none = false
is_number n (some m) = m == n

abbrev is_text : Bytes → Option Bytes → Bool
is_text s none = false
is_text s (some t) = t =? s

unfoldable pub from_message : Value → Option Network
from_message value =
    if is_number 1 (as_u64 value) || is_text (codes "FARCASTER_NETWORK_MAINNET") (as_str value)
    then some mainnet
    else if is_number 2 (as_u64 value) || is_text (codes "FARCASTER_NETWORK_TESTNET") (as_str value)
    then some testnet
    else if is_number 3 (as_u64 value) || is_text (codes "FARCASTER_NETWORK_DEVNET") (as_str value)
    then some devnet
    else none

-- An optional field: absent is accepted, and a value that is present must be read.
abbrev pub optional {ℓ} : {A : Type ℓ} → (Value → Option A) → Option Value → Option (Option A)
optional read none = some none
optional read (some value) = do result ← read value; some (some result)

-- Version-like text.
unfoldable pub version_valid : Bytes → Bool
version_valid version =
    not (length version == 0)
    && leb (length version) 64
    && all (λ byte. is_ascii_alphanumeric byte || one_of (codes ".-+_") byte) version

unfoldable pub parse_peer : Value → Option Bytes
parse_peer value = do
  peer ← as_str value
  ensure (
      not (length peer == 0)
      && leb (length peer) 128
      && all (λ byte. is_ascii_alphanumeric byte || one_of (codes "-_") byte) peer)
  some peer

-- One round of the loop over the shards, behind those that were read.
unfoldable pub parse_shard : ℕ → List ShardInfo → Value → Option ShardInfo
parse_shard num_shards shard_infos shard = do
  id ← get (codes "shardId") shard
  shard_id ← as_u64 id
  ensure (ltb shard_id (2 ^ 32))
  ensure (
      leb shard_id num_shards
      && not (any (λ (info : ShardInfo). info.shard_id == shard_id) shard_infos))
  height ← get (codes "maxHeight") shard
  max_height ← as_u64 height
  delay ← get (codes "blockDelay") shard
  block_delay_seconds ← as_u64 delay
  num_messages ← optional as_u64 (get (codes "numMessages") shard)
  some (record {
    shard_id = shard_id;
    max_height = max_height;
    block_delay_seconds = block_delay_seconds;
    num_messages = num_messages;
  })

unfoldable pub parse_shards : ℕ → List Value → List ShardInfo → Option (List ShardInfo)
unfolding parse_shard
parse_shards num_shards [] shard_infos = some shard_infos
parse_shards num_shards (shard ∷ shards) shard_infos = do
  info ← parse_shard num_shards shard_infos shard
  parse_shards num_shards shards (shard_infos ++ info ∷ [])

-- `sort_unstable_by_key`, on keys that are distinct.
unfoldable pub insert_shard : ShardInfo → List ShardInfo → List ShardInfo
insert_shard info [] = info ∷ []
insert_shard info (other ∷ infos) =
    let rest = insert_shard info infos in
    if ltb info.shard_id other.shard_id then info ∷ other ∷ infos else other ∷ rest

unfoldable pub sort_shards : List ShardInfo → List ShardInfo
unfolding insert_shard
sort_shards [] = []
sort_shards (info ∷ infos) = insert_shard info (sort_shards infos)

-- The shards, where the field is present.
unfoldable pub parse_shard_infos : ℕ → Option Value → Option (List ShardInfo)
unfolding parse_shards sort_shards
parse_shard_infos num_shards none = some []
parse_shard_infos num_shards (some value) = do
  shards ← as_array value
  ensure (leb (length shards) 256)
  shard_infos ← parse_shards num_shards shards []
  some (sort_shards shard_infos)

unfoldable pub parse_info : Value → Option NodeInfo
unfolding version_valid parse_peer parse_shard_infos
parse_info value = do
  version ← get (codes "version") value
  version ← as_str version
  ensure (version_valid version)
  shards ← get (codes "numShards") value
  num_shards ← as_u64 shards
  ensure (not (num_shards == 0))
  stats ← get (codes "dbStats") value
  db_stats ← as_object stats
  num_messages ← optional as_u64 (get_field (codes "numMessages") db_stats)
  peer_id ← optional parse_peer (get (codes "peer_id") value)
  shard_infos ← parse_shard_infos num_shards (get (codes "shardInfos") value)
  some (record {
    version = version;
    num_shards = num_shards;
    num_messages = num_messages;
    peer_id = peer_id;
    shard_infos = shard_infos;
  })

-- `u64::saturating_add`
abbrev pub saturating_add : ℕ → ℕ → ℕ
saturating_add a b = min (a + b) (2 ^ 64 - 1)

unfoldable pub from_info : NodeInfo → ℕ → Freshness
from_info info max_block_delay_secs =
    if any (λ (shard : ShardInfo). ltb max_block_delay_secs shard.block_delay_seconds)
      info.shard_infos
    then lagging
    else if not (length info.shard_infos == saturating_add info.num_shards 1)
        || any (λ (shard : ShardInfo). shard.max_height == 0) info.shard_infos
    then Freshness.unknown
    else fresh

-- The one message of `parse_network`.
unfoldable pub message_network : Value → ℕ → Result (Unit {0}) (Option Network)
unfolding from_message
message_network message fid = elim (get (codes "data") message) [
  | none ↦ err tt
  | some body ↦ elim (get (codes "fid") body >>= as_u64) [
    | none ↦ err tt
    | some reported_fid ↦
        if reported_fid == fid then ok (get (codes "network") body >>= from_message) else err tt
  ]
]

unfoldable pub parse_network : Value → ℕ → Result (Unit {0}) (Option Network)
unfolding message_network
parse_network value fid = elim (get (codes "messages") value >>= as_array) [
  | none ↦ err tt
  | some messages ↦ elim messages [
    | [] ↦ ok none
    | message ∷ rest ↦ elim rest [ [] ↦ message_network message fid | _ ∷ _ ↦ err tt ]
  ]
]

abbrev store_names : List Bytes
store_names =
    codes "CASTS"
    ∷ codes "LINKS"
    ∷ codes "REACTIONS"
    ∷ codes "USER_DATA"
    ∷ codes "VERIFICATIONS"
    ∷ codes "USERNAME_PROOFS"
    ∷ codes "STORAGE_LENDS"
    ∷ []

-- One round of the loop over the limits.
unfoldable pub parse_limit : List StoreLimit → Value → Option StoreLimit
parse_limit limits entry = do
  name ← get (codes "name") entry
  name ← as_str name
  ensure (any (λ known. name =? known) store_names)
  ensure (not (any (λ (limit : StoreLimit). limit.name =? name) limits))
  limit ← get (codes "limit") entry
  limit ← as_u64 limit
  used ← get (codes "used") entry
  used ← as_u64 used
  some (record { name = name; limit = limit; used = used })

unfoldable pub parse_limits : List Value → List StoreLimit → Option (List StoreLimit)
unfolding parse_limit
parse_limits [] limits = some limits
parse_limits (entry ∷ entries) limits = do
  limit ← parse_limit limits entry
  parse_limits entries (limits ++ limit ∷ [])

unfoldable pub parse_storage : Value → Option StorageAllocation
unfolding parse_limits
parse_storage value = do
  units ← get (codes "units") value
  units ← as_u64 units
  entries ← get (codes "limits") value
  entries ← as_array entries
  ensure (leb (length entries) 32)
  limits ← parse_limits entries []
  some (record { units = units; limits = limits })
