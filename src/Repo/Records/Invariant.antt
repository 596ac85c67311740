-- ===== src/Repo/Records/Invariant.antt =====
-- What holds of every `RecordSet` that was built by its operations.
use psky.Prelude.{
  ◌+◌, ◌≤◌, ◌≡◌, refl, sym, ◌⊎◌, ◌-◌, Result-cases, suc, Bool, inl, inr, true, Bytes, bytes_ord,
  Result, ok, err, >>=-eq-ok, map_or, is_some, arith, List, [], ◌∷◌, length, All,
}
use mathlib.Core.Path.{subst}
use psky.Prelude.Sorted
use psky.Prelude.Sorted.{
  Map, IsSorted, IsSorted-insert, IsSorted-remove, total, total-insert, total-remove, length-insert,
  length-remove-le, All-insert, All-remove,
}
use psky.Json.{Value}
use psky.Repo.Error.{Error}
use psky.Repo.Syntax.{path}
use psky.Repo.Library.{Library}
use psky.Repo.Records.{
  Record, RecordSet, empty, byte_length, cid_for, encode_record, store, put, delete, max_records,
  max_total_record_bytes,
}
use psky.Repo.Ipld.{max_record_bytes}

module _ (lib : Library) where
  -- An entry has a valid path, the identifier of its bytes, and no more bytes than are allowed.
  abbrev pub IsStored : Bytes → Record lib.Cid → Type 0
  IsStored p r =
      (path p ≡ ok tt) × (r.cid ≡ cid_for lib r.bytes) × (length r.bytes ≤ max_record_bytes)

  -- `encoded_bytes` counts what is stored, and the limits are kept.
  pub record IsValid (set : RecordSet lib.Cid) : Type 0 where
    pub sorted : IsSorted set.records
    pub stored : All (λ e. IsStored e.0 e.1) set.records
    pub counted : set.encoded_bytes ≡ total byte_length set.records
    pub few : length set.records ≤ max_records
    pub small : set.encoded_bytes ≤ max_total_record_bytes

  pub empty-IsValid : IsValid empty
  empty-IsValid = record {
    sorted = tt;
    stored = tt;
    counted = refl;
    few = omega arith;
    small = omega arith;
  }

  -- What the checks of `put` have established when the bytes are there.
  pub encode_record-checks :
      (set : RecordSet lib.Cid) (p : Bytes) (v : Value) (bytes : Bytes)
      → encode_record lib set p v ≡ ok bytes
      → (path p ≡ ok tt)
        × (length bytes ≤ max_record_bytes)
        × ((is_some (Sorted.get p set.records) ≡ true) ⊎ (suc (length set.records) ≤ max_records))
  unfolding encode_record
  encode_record-checks set p v bytes h = ground arith

  abbrev pub new_record : Bytes → Record lib.Cid
  new_record bytes = record { cid = cid_for lib bytes; bytes = bytes }

  pub store-eq :
      (set next : RecordSet lib.Cid) (p bytes : Bytes) (c : lib.Cid)
      → store lib set p bytes ≡ ok (next, c)
      → (next.records ≡ Sorted.insert p (new_record bytes) set.records)
        × (next.encoded_bytes
            ≡ set.encoded_bytes - map_or 0 byte_length (Sorted.get p set.records) + length bytes)
        × (next.encoded_bytes ≤ max_total_record_bytes)
        × (c ≡ cid_for lib bytes)
  unfolding store
  store-eq set next p bytes c h = ground arith

  store-IsValid :
      (set next : RecordSet lib.Cid) (p bytes : Bytes) (c : lib.Cid)
      → IsValid set
      → path p ≡ ok tt
      → length bytes ≤ max_record_bytes
      → ((is_some (Sorted.get p set.records) ≡ true) ⊎ (suc (length set.records) ≤ max_records))
      → store lib set p bytes ≡ ok (next, c)
      → IsValid next
  store-IsValid set next p bytes c v hp hb room h =
      let (same, bytes_after, fits, id) = store-eq set next p bytes c h in
      record {
        sorted = rw same (IsSorted-insert p (new_record bytes) set.records v.sorted);
        stored =
            rw same (All-insert IsStored p (new_record bytes) set.records (hp, refl, hb) v.stored);
        counted = rw same (
            omega (
              arith,
              bytes_after,
              v.counted,
              total-insert byte_length p (new_record bytes) set.records v.sorted,
              total-remove byte_length p set.records,
            ));
        few = rw same (ground (arith, length-insert p (new_record bytes) set.records v.sorted));
        small = fits;
      }

  -- A successful `put` keeps the set valid.
  pub put-IsValid :
      (set next : RecordSet lib.Cid) (p : Bytes) (value : Value) (c : lib.Cid)
      → IsValid set
      → put lib set p value ≡ ok (next, c)
      → IsValid next
  unfolding put
  put-IsValid set next p value c v h =
      let (bytes, e, stored) = >>=-eq-ok (encode_record lib set p value) _ h in
      let (hp, hb, room) = encode_record-checks set p value bytes e in
      store-IsValid set next p bytes c v hp hb room stored

  delete-eq :
      (set next : RecordSet lib.Cid) (p : Bytes) (found : Bool)
      → delete set p ≡ ok (next, found)
      → (next ≡ set)
        ⊎ ((next.records ≡ Sorted.remove p set.records)
            × (next.encoded_bytes
                ≡ set.encoded_bytes - map_or 0 byte_length (Sorted.get p set.records)))
  unfolding delete
  delete-eq set next p found h = ground arith

  -- So does `delete`, whether it finds the record or not.
  pub delete-IsValid :
      (set next : RecordSet lib.Cid) (p : Bytes) (found : Bool)
      → IsValid set
      → delete set p ≡ ok (next, found)
      → IsValid next
  delete-IsValid set next p found v h = elim (delete-eq set next p found h) [
    | inl same ↦ subst IsValid (sym same) v
    | inr (same, bytes_after) ↦ record {
      sorted = rw same (IsSorted-remove p set.records v.sorted);
      stored = rw same (All-remove IsStored p set.records v.stored);
      counted =
          rw same (omega (arith, bytes_after, v.counted, total-remove byte_length p set.records));
      few = rw same (omega (arith, v.few, length-remove-le p set.records));
      small = omega (arith, bytes_after, v.small);
    }
  ]

-- The calls that change a set.
pub data Mutation : Type 0 where
  puts : Bytes → Value → Mutation
  deletes : Bytes → Mutation

module _ (lib : Library) where
  -- A call that fails leaves the set as it was.
  abbrev pub after {ℓ} :
      {A : Type ℓ} → RecordSet lib.Cid → Result Error (RecordSet lib.Cid × A) → RecordSet lib.Cid
  after set (ok (next, _)) = next
  after set (err e) = set

  unfoldable pub mutate : RecordSet lib.Cid → Mutation → RecordSet lib.Cid
  mutate set (puts p v) = after set (put lib set p v)
  mutate set (deletes p) = after set (delete set p)

  unfoldable pub replay : RecordSet lib.Cid → List Mutation → RecordSet lib.Cid
  replay set [] = set
  replay set (m ∷ ms) = replay (mutate set m) ms

  mutate-IsValid :
      (set : RecordSet lib.Cid) (m : Mutation) → IsValid lib set → IsValid lib (mutate set m)
  unfolding mutate
  mutate-IsValid set (puts p v) h = elim (Result-cases (put lib set p v)) [
    | inl ((next, c), e) ↦ rw (e, mutate) (put-IsValid lib set next p v c h e)
    | inr (e, q) ↦ rw (q, mutate) h
  ]
  mutate-IsValid set (deletes p) h = elim (Result-cases (delete set p)) [
    | inl ((next, found), e) ↦ rw (e, mutate) (delete-IsValid lib set next p found h e)
    | inr (e, q) ↦ rw (q, mutate) h
  ]

  replay_from-IsValid :
      (set : RecordSet lib.Cid) (ms : List Mutation) → IsValid lib set → IsValid lib (replay set ms)
  unfolding replay
  replay_from-IsValid set [] h = h
  replay_from-IsValid set (m ∷ ms) h =
      replay_from-IsValid (mutate set m) ms (mutate-IsValid set m h)

  -- Whatever is put and deleted, in whatever order, failing or not, the set stays valid: sorted paths
  -- that pass the check, bytes counted exactly, and every limit kept.
  pub replay-IsValid : (ms : List Mutation) → IsValid lib (replay empty ms)
  replay-IsValid ms = replay_from-IsValid empty ms (empty-IsValid lib)
