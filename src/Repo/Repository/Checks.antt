-- ===== src/Repo/Repository/Checks.antt =====
-- What each loop of `verify` establishes, both ways.
use psky.Prelude.{
  ◌≡◌, ◌↔◌, refl, ap, inl, inr, Option-cases, true, some, Bytes, bytes_ord, Ord, ok, arith, [], ◌∷◌,
  All, =?_iff,
}
use psky.Prelude.Sorted.{Map}
use psky.Repo.Library.{Library}
use psky.Repo.Records.{Record, cid_for}
use psky.Repo.Mst.{Blocks}
use psky.Repo.Mst.Reads.{IsKeyed, lookup}
use psky.Repo.Repository.{check_hashes, check_tree, check_records, holds}

module _ (lib : Library) where
  open lib use {Cid}

  instance abbrev order : Ord Cid
  order = lib.cid_ord

  holds_iff :
      (blocks : Blocks lib) (c : Cid) (bytes : Bytes)
      → (holds lib blocks c bytes ≡ true) ↔ (lookup lib c blocks ≡ some bytes)
  unfolding holds
  holds_iff blocks c bytes = (to, λ h. rw (h, holds) ((=?_iff bytes bytes).1 refl))
    where
      to : holds lib blocks c bytes ≡ true → lookup lib c blocks ≡ some bytes
      to h = elim (Option-cases (lookup lib c blocks)) [
        | inl e ↦ absurd (ground arith)
        | inr (b, e) ↦ rw e (ap some ((=?_iff b bytes).0 (rw (e, holds) at h)))
      ]

  pub check_hashes_iff :
      (blocks : Blocks lib) → (check_hashes lib blocks ≡ ok tt) ↔ IsKeyed lib blocks
  unfolding check_hashes
  check_hashes_iff [] = (λ _. tt, λ _. refl)
  check_hashes_iff ((c, bytes) ∷ blocks) =
      ground (arith, check_hashes_iff blocks, =?_iff (cid_for lib bytes) c)

  -- The blocks hold every entry of a list.
  abbrev pub HoldAll : Blocks lib → Blocks lib → Type 0
  HoldAll blocks = All (λ e. lookup lib e.0 blocks ≡ some e.1)

  pub check_tree_iff :
      (blocks expected : Blocks lib)
      → (check_tree lib blocks expected ≡ ok tt) ↔ HoldAll blocks expected
  unfolding check_tree
  check_tree_iff blocks [] = (λ _. tt, λ _. refl)
  check_tree_iff blocks ((c, bytes) ∷ expected) =
      ground (arith, check_tree_iff blocks expected, holds_iff blocks c bytes)

  -- The blocks hold every record.
  abbrev pub HoldRecords : Blocks lib → Map Bytes (Record Cid) → Type 0
  HoldRecords blocks = All (λ e. lookup lib e.1.cid blocks ≡ some e.1.bytes)

  pub check_records_iff :
      (blocks : Blocks lib) (records : Map Bytes (Record Cid))
      → (check_records lib blocks records ≡ ok tt) ↔ HoldRecords blocks records
  unfolding check_records
  check_records_iff blocks [] = (λ _. tt, λ _. refl)
  check_records_iff blocks ((p, r) ∷ records) =
      ground (arith, check_records_iff blocks records, holds_iff blocks r.cid r.bytes)
