-- ===== src/Repo/Mst/Store.antt =====
-- The block map under insertions: blocks keyed by their bytes, and what is found in them.
use psky.Prelude.{◌≡◌, refl, some, Bytes, Ord, arith, [], ◌∷◌, All, =?_iff, =?_refl}
use psky.Prelude.Sorted
use psky.Prelude.Sorted.{get-insert, All-insert, All-get}
use psky.Repo.Library.{Library}
use psky.Repo.Records.{cid_for}
use psky.Repo.Mst.{Blocks}
use psky.Repo.Mst.Reads.{Extends, IsKeyed, lookup}

module _ (lib : Library) where
  open lib use {Cid}

  instance abbrev order : Ord Cid
  order = lib.cid_ord

  -- Adding the block of some bytes keeps the blocks keyed.
  pub insert-IsKeyed :
      (blocks : Blocks lib) (bytes : Bytes)
      → IsKeyed lib blocks
      → IsKeyed lib (Sorted.insert (cid_for lib bytes) bytes blocks)
  insert-IsKeyed blocks bytes k =
      All-insert (λ c b. c ≡ cid_for lib b) (cid_for lib bytes) bytes blocks refl k

  pub lookup-IsKeyed :
      (blocks : Blocks lib) (c : Cid) (bytes : Bytes)
      → IsKeyed lib blocks
      → lookup lib c blocks ≡ some bytes
      → c ≡ cid_for lib bytes
  lookup-IsKeyed blocks c bytes k h = All-get (λ c b. c ≡ cid_for lib b) c bytes blocks k h

  pub lookup-insert :
      (blocks : Blocks lib) (bytes : Bytes)
      → lookup lib (cid_for lib bytes) (Sorted.insert (cid_for lib bytes) bytes blocks) ≡ some bytes
  lookup-insert blocks bytes = ground (
    arith,
    get-insert (cid_for lib bytes) (cid_for lib bytes) bytes blocks,
    =?_iff (cid_for lib bytes) (cid_for lib bytes),
  )

  -- What is found is found in a map that holds all the entries.
  pub Extends-of_All :
      (old new : Blocks lib) → All (λ e. lookup lib e.0 new ≡ some e.1) old → Extends lib old new
  Extends-of_All old new h c bytes found =
      All-get (λ c b. lookup lib c new ≡ some b) c bytes old h found

  module _ (injective : (a b : Bytes) → cid_for lib a ≡ cid_for lib b → a ≡ b) where
    -- What was found before is found still.
    pub insert-Extends :
        (blocks : Blocks lib) (bytes : Bytes)
        → IsKeyed lib blocks
        → Extends lib blocks (Sorted.insert (cid_for lib bytes) bytes blocks)
    insert-Extends blocks bytes k c found h = ground (
      arith,
      get-insert (cid_for lib bytes) c bytes blocks,
      lookup-IsKeyed blocks c found k h,
      injective bytes found,
      =?_iff (cid_for lib bytes) c,
    )

    All-under :
        (c : Cid) (bytes : Bytes) (blocks xs : Blocks lib)
        → c ≡ cid_for lib bytes
        → IsKeyed lib xs
        → All (λ e. lookup lib e.0 blocks ≡ some e.1) xs
        → All (λ e. lookup lib e.0 ((c, bytes) ∷ blocks) ≡ some e.1) xs
    unfolding Sorted.get
    All-under c bytes blocks [] id k h = tt
    All-under c bytes blocks ((d, found) ∷ xs) id k h = (
      ground (arith, k.0, h.0, =?_iff c d, injective bytes found),
      All-under c bytes blocks xs id k.1 h.1,
    )

    -- Every entry of a keyed map is what is found under its identifier.
    pub IsKeyed-lookup :
        (blocks : Blocks lib)
        → IsKeyed lib blocks
        → All (λ e. lookup lib e.0 blocks ≡ some e.1) blocks
    unfolding Sorted.get
    IsKeyed-lookup [] k = tt
    IsKeyed-lookup ((c, bytes) ∷ blocks) k =
        (rw (=?_refl c), All-under c bytes blocks blocks k.0 k.1 (IsKeyed-lookup blocks k.1))
