-- ===== src/Repo/Mst.antt =====
-- crates/psky-repo/src/mst.rs: the Merkle search tree of a mapping, written as blocks.
pub mod Reads
pub mod Store
pub mod Groups
pub mod Faithful
use psky.Prelude.{
  ℕ, zero, suc, ◌+◌, ◌/◌, max, Bool, true, false, not, Option, none, some, Bytes, Ord, bytes_ord,
  Result, ok, err, ◌>>=◌, List, [], ◌∷◌, map, leb, ltb, ◌==◌, if◌then◌else◌, drop,
}
use psky.Prelude.Sorted
use psky.Prelude.Sorted.{Map}
use psky.Repo.Error.{Error, verification}
use psky.Repo.Library.{Library, Node, Entry, Serialize, node}
use psky.Repo.Records.{encode, cid_for}

-- `u8::leading_zeros`
unfoldable pub leading_zeros : ℕ → ℕ
leading_zeros b =
    if leb 128 b
    then 0
    else if leb 64 b
    then 1
    else if leb 32 b
    then 2
    else if leb 16 b
    then 3
    else if leb 8 b
    then 4
    else if leb 4 b
    then 5
    else if leb 2 b
    then 6
    else if leb 1 b
    then 7
    else 8

-- The loop of `layer`, which stops behind the first byte that is not zero.
unfoldable pub count_zeros : ℕ → Bytes → ℕ
unfolding leading_zeros
count_zeros zeros [] = zeros
count_zeros zeros (byte ∷ rest) =
    let more = count_zeros (zeros + leading_zeros byte) rest in
    if not (byte == 0) then zeros + leading_zeros byte else more

-- `previous.iter().zip(key).take_while(|(a, b)| a == b).count()`
unfoldable pub common_prefix : Bytes → Bytes → ℕ
common_prefix [] key = 0
common_prefix (a ∷ previous) [] = 0
common_prefix (a ∷ previous) (b ∷ key) =
    let more = suc (common_prefix previous key) in if a == b then more else 0

-- A key, its value and its layer.
pub record Item (Cid : Type 0) : Type 0 where
  pub key : Bytes
  pub value : Cid
  pub layer : ℕ

abbrev pub Group : Type 0 → Type 0
Group Cid = Item Cid × List (Item Cid)

module _ {Cid : Type 0} where
  abbrev add_item :
      Item Cid → Bool → List (Item Cid) × List (Group Cid) → List (Item Cid) × List (Group Cid)
  add_item x true (left, groups) = ([], (x, left) ∷ groups)
  add_item x false (left, groups) = (x ∷ left, groups)

  -- The slice before the first anchor, and each anchor with the slice up to the next one. The anchors
  -- are the items at the given layer.
  unfoldable pub group_at : ℕ → List (Item Cid) → List (Item Cid) × List (Group Cid)
  group_at at [] = ([], [])
  group_at at (x ∷ xs) = add_item x (x.layer == at) (group_at at xs)

  -- `iter().map(layer).max().unwrap_or(0)`
  unfoldable pub top_layer : List (Item Cid) → ℕ
  top_layer [] = 0
  top_layer (x ∷ xs) = max x.layer (top_layer xs)

module _ (lib : Library) where
  open lib use {Cid, sha256}

  instance abbrev order : Ord Cid
  order = lib.cid_ord

  abbrev pub Blocks : Type 0
  Blocks = Map Cid Bytes

  -- A computation that may add blocks.
  abbrev pub Writes : Type 0 → Type 0
  Writes A = Blocks → Result Error (A × Blocks)

  unfoldable pub layer : Bytes → ℕ
  unfolding count_zeros
  layer key = count_zeros 0 (sha256 key) / 2

  -- `child`, given `subtree` one layer down; there is none below layer 0.
  unfoldable pub child :
      Option (List (Item Cid) → Writes Cid) → List (Item Cid) → Writes (Option Cid)
  child below [] blocks = ok (none, blocks)
  child none (x ∷ xs) blocks = err (verification "MST layer underflow")
  child (some subtree) (x ∷ xs) blocks = do
    (cid, written) ← subtree (x ∷ xs) blocks
    ok (some cid, written)

  -- The loop over the anchors; `previous` is the key of the anchor before.
  unfoldable pub write_entries :
      (List (Item Cid) → Writes (Option Cid)) → Bytes → List (Group Cid) → Writes (List (Entry Cid))
  write_entries below previous [] blocks = ok ([], blocks)
  write_entries below previous ((x, following) ∷ groups) blocks = do
    (tree, written) ← below following blocks
    let prefix = common_prefix previous x.key
    (entries, finished) ← write_entries below x.key groups written
    ok (record { p = prefix; k = drop prefix x.key; v = x.value; t = tree } ∷ entries, finished)

  -- The body of `subtree`, given `child`.
  unfoldable pub write_node :
      ℕ → (List (Item Cid) → Writes (Option Cid)) → List (Item Cid) → Writes Cid
  write_node at below items blocks = do
    let groups = group_at at items
    (left, with_left) ← below groups.0 blocks
    (entries, with_entries) ← write_entries below [] groups.1 with_left
    bytes ← encode lib (node (record { l = left; e = entries }))
    ok (cid_for lib bytes, Sorted.insert (cid_for lib bytes) bytes with_entries)

  unfoldable pub subtree : ℕ → List (Item Cid) → Writes Cid
  subtree zero = write_node zero (child none)
  subtree (suc at) = write_node (suc at) (child (some (subtree at)))

  unfoldable pub items_of : Map Bytes Cid → List (Item Cid)
  items_of mapping = map (λ e. record { key = e.0; value = e.1; layer = layer e.0 }) mapping

  unfoldable pub build : Map Bytes Cid → Writes Cid
  build mapping blocks = let items = items_of mapping in subtree (top_layer items) items blocks
