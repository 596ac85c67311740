-- ===== src/Repo/Ipld.antt =====
-- `json_to_ipld` of crates/psky-repo/src/lib.rs: a JSON record as a value of the data model, within a
-- depth and a byte budget. The budget is threaded; after an error nobody reads it.
pub mod Bounds
use psky.Prelude.{
  ℕ, ◌+◌, ◌-◌, Bool, true, false, not, ◌&&◌, ◌||◌, Option, none, some, Bytes, bytes_ord, ◌=?◌,
  Ordering, Result, ok, err, ◌>>=◌, ◌>>◌, fail_if, ok_or, is_none, ltb, leb, ◌==◌, if◌then◌else◌,
  suc, length,
}
use psky.Prelude.Int.{ℤ, pos, negsuc}
use psky.Prelude.Text.{codes}
use psky.Json
use psky.Json.{Value, Values, Fields, as_i64, as_str, get_field, count}
use psky.Repo.Error.{Error, invalid_record, limit}
use psky.Repo.Library.{Library, Ipld, Items, Entries, entry}

abbrev pub max_record_bytes : ℕ
max_record_bytes = 1_000_000

abbrev pub max_record_depth : ℕ
max_record_depth = 64

abbrev pub max_safe_integer : ℕ
max_safe_integer = 9_007_199_254_740_991

-- `budget.checked_sub(charge).ok_or(Error::Limit("record bytes"))?`
unfoldable pub spend : ℕ → ℕ → Result Error ℕ
spend budget charge = if leb charge budget then ok (budget - charge) else err (limit "record bytes")

abbrev pub charge : Value → ℕ
charge (Value.string s) = length s + 1
charge _ = 1

-- The depth test and the charge with which every call begins.
unfoldable pub enter : Value → ℕ → ℕ → Result Error ℕ
unfolding spend
enter v depth budget =
    if ltb max_record_depth depth then err (limit "record nesting") else spend budget (charge v)

-- The range test on an `i64`; -(n + 1) is in range for n below the bound.
unfoldable pub safe_integer : ℤ → Bool
safe_integer (pos n) = leb n max_safe_integer
safe_integer (negsuc n) = ltb n max_safe_integer

module _ {Cid : Type 0} where
  -- `BTreeMap::insert`, on the entries of a map.
  unfoldable pub insert_entry : Bytes → Ipld Cid → Entries Cid → Entries Cid
  insert_entry k v Entries.end = entry k v Entries.end
  insert_entry k v (entry j w m) = elim (bytes_ord.cmp k j) [
    | Ordering.lt ↦ entry k v (entry j w m)
    | Ordering.eq ↦ entry k v m
    | Ordering.gt ↦ entry j w (insert_entry k v m)
  ]

module _ (lib : Library) where
  open lib use {Cid, parse_cid, is_v1, codec, hash_code, hash_size, cid_string, base64_decode}

  unfoldable pub convert_number : Json.Number → Result Error (Ipld Cid)
  unfolding safe_integer
  convert_number n = elim (as_i64 n) [
    | none ↦ err (invalid_record "only safe signed JSON integers are supported")
    | some i ↦
        if safe_integer i
        then ok (Ipld.integer i)
        else err (invalid_record "only safe signed JSON integers are supported")
  ]

  -- The identifier is version 1, raw or DAG-CBOR, SHA-256 of 32 bytes, and printed canonically.
  unfoldable pub link_supported : Cid → Bytes → Bool
  link_supported cid encoded = not (
      not (is_v1 cid)
      || not (codec cid == 0x55 || codec cid == 0x71)
      || not (hash_code cid == 0x12)
      || not (hash_size cid == 32)
      || not (cid_string cid =? encoded))

  -- A `$link` wrapper.
  unfoldable pub convert_link : Fields → Value → ℕ → Result Error (Ipld Cid × ℕ)
  unfolding link_supported spend
  convert_link fields value budget = do
    fail_if (not (count fields == 1)) (invalid_record "$link wrapper has extra fields")
    encoded ← ok_or (as_str value) (invalid_record "$link must be a CID string")
    fail_if (ltb 128 (length encoded)) (invalid_record "$link CID is too long")
    left ← spend budget (length encoded)
    cid ← ok_or (parse_cid encoded) (invalid_record "invalid $link CID")
    fail_if (not (link_supported cid encoded)) (
        invalid_record
          "$link must be canonical base32 CIDv1 with raw or DAG-CBOR codec and SHA-256")
    ok (Ipld.link cid, left)

  -- A `$bytes` wrapper.
  unfoldable pub convert_bytes : Fields → Value → ℕ → Result Error (Ipld Cid × ℕ)
  unfolding spend
  convert_bytes fields value budget = do
    fail_if (not (count fields == 1)) (invalid_record "$bytes wrapper has extra fields")
    encoded ← ok_or (as_str value) (invalid_record "$bytes must be base64")
    left ← spend budget (length encoded)
    decoded ← ok_or (base64_decode encoded) (invalid_record "invalid base64")
    ok (Ipld.bytes decoded, left)

  unfoldable mutual
    pub json_to_ipld : Value → ℕ → ℕ → Result Error (Ipld Cid × ℕ)
    json_to_ipld Value.null depth budget = do
      left ← enter Value.null depth budget
      ok (Ipld.null, left)
    json_to_ipld (Value.bool b) depth budget = do
      left ← enter (Value.bool b) depth budget
      ok (Ipld.bool b, left)
    json_to_ipld (Value.string s) depth budget = do
      left ← enter (Value.string s) depth budget
      ok (Ipld.string s, left)
    json_to_ipld (Value.number n) depth budget = do
      left ← enter (Value.number n) depth budget
      i ← convert_number n
      ok (i, left)
    json_to_ipld (Value.array values) depth budget = do
      left ← enter (Value.array values) depth budget
      (items, rest) ← convert_items values (depth + 1) left
      ok (Ipld.list items, rest)
    json_to_ipld (Value.object fields) depth budget = do
      left ← enter (Value.object fields) depth budget
      elim (get_field (codes "$link") fields) [
        | some value ↦ convert_link fields value left
        | none ↦ elim (get_field (codes "$bytes") fields) [
          | some value ↦ convert_bytes fields value left
          | none ↦ do
            (entries, rest) ← convert_fields fields (depth + 1) left Entries.end
            ok (Ipld.map entries, rest)
        ]
      ]

    pub convert_items : Values → ℕ → ℕ → Result Error (Items Cid × ℕ)
    convert_items Values.nil depth budget = ok (Items.nil, budget)
    convert_items (Values.cons v vs) depth budget = do
      (i, left) ← json_to_ipld v depth budget
      (items, rest) ← convert_items vs depth left
      ok (Items.cons i items, rest)

    -- The loop over the fields; the last argument is the map so far.
    pub convert_fields : Fields → ℕ → ℕ → Entries Cid → Result Error (Entries Cid × ℕ)
    convert_fields Fields.end depth budget entries = ok (entries, budget)
    convert_fields (Fields.field k v fs) depth budget entries = do
      left ← spend budget (length k)
      (i, rest) ← json_to_ipld v depth left
      convert_fields fs depth rest (insert_entry k i entries)
