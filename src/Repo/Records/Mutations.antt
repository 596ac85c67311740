-- ===== src/Repo/Records/Mutations.antt =====
-- What `put` and `delete` do, as `get` shows it.
use psky.Prelude.{
  ◌+◌, ◌≡◌, ◌-◌, =?_iff, ap, inl, inr, none, some, Bytes, bytes_ord, ok, >>=-eq-ok, map_or, is_some,
  arith, if◌then◌else◌, ◌=?◌, Option-cases,
}
use psky.Prelude.Sorted
use psky.Prelude.Sorted.{get-insert, get-remove, total-remove}
use psky.Json.{Value}
use psky.Repo.Syntax.{path}
use psky.Repo.Library.{Library}
use psky.Repo.Records.{RecordSet, cid_for, encode_record, put, delete, get, byte_length}
use psky.Repo.Records.Invariant.{IsValid, new_record, store-eq}

module _ (lib : Library) where
  -- After a successful `put`, its path holds a record of at most the allowed size, under the returned
  -- identifier, which is that of the record's bytes, and every other path reads as before.
  pub get-put :
      (set next : RecordSet lib.Cid) (p : Bytes) (value : Value) (c : lib.Cid)
      → put lib set p value ≡ ok (next, c)
      → (bytes : Bytes) × (encode_record lib set p value ≡ ok bytes)
        × (c ≡ cid_for lib bytes)
        × ((q : Bytes)
            → get next q ≡ (if p =? q then some (record { cid = c; bytes = bytes }) else get set q))
  unfolding put get
  get-put set next p value c h =
      let (bytes, e, stored) = >>=-eq-ok (encode_record lib set p value) _ h in
      let (same, _, _, id) = store-eq lib set next p bytes c stored in
      (bytes, e, id, λ q. rw (same, id) (get-insert p q (new_record lib bytes) set.records))

  -- In a valid set `delete` of a valid path succeeds, says whether the path was there, and then the
  -- path is gone, every other path reads as before, and the bytes of the record are given back.
  pub get-delete :
      (set : RecordSet lib.Cid) (p : Bytes)
      → IsValid lib set
      → path p ≡ ok tt
      → (next : RecordSet lib.Cid) × (delete set p ≡ ok (next, is_some (get set p)))
        × ((q : Bytes) → get next q ≡ (if p =? q then none else get set q))
        × (next.encoded_bytes + map_or 0 byte_length (get set p) ≡ set.encoded_bytes)
  unfolding delete get
  get-delete set p v hp = elim (Option-cases (Sorted.get p set.records)) [
    | inl e ↦ (set, rw (hp, e), λ q. ground (arith, =?_iff p q), rw e (omega arith))
    | inr (r, e) ↦ (
      record {
        records = Sorted.remove p set.records;
        encoded_bytes = set.encoded_bytes - byte_length r;
      },
      rw (hp, e),
      λ q. get-remove p q set.records v.sorted,
      rw e (
          omega (
            arith,
            v.counted,
            total-remove byte_length p set.records,
            ap (map_or 0 byte_length) e,
          )),
    )
  ]
