-- ===== src/Repo/Records.antt =====
-- `Record` and `RecordSet` of crates/psky-repo/src/lib.rs: the materialized records of one account.
pub mod Invariant
pub mod Mutations
use psky.Prelude.{
  ℕ, ◌+◌, ◌-◌, ◌*◌, Bool, true, false, not, ◌&&◌, Option, none, some, Bytes, bytes_ord, ◌=?◌, ◌==◌,
  Result, ok, err, ◌>>=◌, ◌>>◌, fail_if, map_err, map_or, leb, ltb, if◌then◌else◌, List, [], ◌∷◌,
  length, and_then,
}
use psky.Prelude.Sorted
use psky.Prelude.Sorted.{Map, contains_key}
use psky.Prelude.Text.{codes, split_once}
use psky.Json
use psky.Json.{Value, as_str}
use psky.Repo.Error.{Error, invalid_path, invalid_record, limit, cbor}
use psky.Repo.Syntax.{path}
use psky.Repo.Library.{Library, Ipld, Serialize, record_value}
use psky.Repo.Ipld.{json_to_ipld, max_record_bytes}

abbrev pub max_records : ℕ
max_records = 100_000

abbrev pub max_total_record_bytes : ℕ
max_total_record_bytes = 16 * 1024 * 1024

pub record Record (Cid : Type 0) : Type 0 where
  pub cid : Cid
  pub bytes : Bytes

pub record RecordSet (Cid : Type 0) : Type 0 where
  pub records : Map Bytes (Record Cid)
  pub encoded_bytes : ℕ

abbrev pub byte_length : {Cid : Type 0} → Record Cid → ℕ
byte_length r = length r.bytes

-- `RecordSet::new`
abbrev pub empty : {Cid : Type 0} → RecordSet Cid
empty = record { records = []; encoded_bytes = 0 }

-- `expect("validated path")` never fails behind `syntax::path`; the model reads the empty text there.
unfoldable pub collection_of : Bytes → Bytes
collection_of p = map_or [] (λ parts. parts.0) (split_once b'/' p)

-- `value.get("$type").and_then(Value::as_str) == Some(collection)`
unfoldable pub type_is : Value → Bytes → Bool
type_is value collection =
    map_or false (λ t. t =? collection) (and_then (Json.get (codes "$type") value) as_str)

module _ (lib : Library) where
  open lib use {Cid, new_v1, sha256, to_vec}

  unfoldable pub encode : Serialize Cid → Result Error Bytes
  encode value = map_err cbor (to_vec value)

  unfoldable pub cid_for : Bytes → Cid
  cid_for bytes = new_v1 0x71 0x12 (sha256 bytes)

  -- The bytes of the record that `put` would store, after every check on the path and the value.
  unfoldable pub encode_record : RecordSet Cid → Bytes → Value → Result Error Bytes
  unfolding encode type_is collection_of
  encode_record set p value = do
    path p
    fail_if (not (type_is value (collection_of p)))
        (invalid_record "$type must match the collection")
    fail_if (not (contains_key p set.records) && leb max_records (length set.records))
        (limit "record count")
    (ipld, left) ← json_to_ipld lib value 0 max_record_bytes
    bytes ← encode (record_value ipld)
    fail_if (ltb max_record_bytes (length bytes)) (limit "encoded record bytes")
    ok bytes

  -- `self.encoded_bytes - replaced_bytes + bytes.len()`
  unfoldable pub encoded_bytes_after : RecordSet Cid → Bytes → Bytes → ℕ
  encoded_bytes_after set p bytes =
      set.encoded_bytes - map_or 0 byte_length (Sorted.get p set.records) + length bytes

  unfoldable pub store : RecordSet Cid → Bytes → Bytes → Result Error (RecordSet Cid × Cid)
  unfolding encoded_bytes_after
  store set p bytes =
      let total = encoded_bytes_after set p bytes in
      if ltb max_total_record_bytes total
      then err (limit "aggregate record bytes")
      else ok (
        record {
          records = Sorted.insert p (record { cid = cid_for bytes; bytes = bytes }) set.records;
          encoded_bytes = total;
        },
        cid_for bytes,
      )

  -- An error leaves the caller with the set that it had.
  unfoldable pub put : RecordSet Cid → Bytes → Value → Result Error (RecordSet Cid × Cid)
  put set p value = do bytes ← encode_record set p value; store set p bytes

module _ {Cid : Type 0} where
  unfoldable pub delete : RecordSet Cid → Bytes → Result Error (RecordSet Cid × Bool)
  delete set p = do
    path p
    elim (Sorted.get p set.records) [
      | none ↦ ok (set, false)
      | some r ↦ ok (
        record {
          records = Sorted.remove p set.records;
          encoded_bytes = set.encoded_bytes - byte_length r;
        },
        true,
      )
    ]

  unfoldable pub get : RecordSet Cid → Bytes → Option (Record Cid)
  get set p = Sorted.get p set.records

  unfoldable pub len : RecordSet Cid → ℕ
  len set = length set.records

  unfoldable pub is_empty : RecordSet Cid → Bool
  unfolding len
  is_empty set = len set == 0
