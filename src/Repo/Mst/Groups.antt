-- ===== src/Repo/Mst/Groups.antt =====
-- How `subtree` cuts its slice at the anchors, and how a key is put together from its prefix.
use psky.Prelude.{
  ℕ, suc, ◌≤◌, ◌<◌, ◌≡◌, refl, Bytes, arith, List, [], ◌∷◌, ◌++◌, All, take, drop, ==_iff,
}
use psky.Repo.Mst.{Item, Group, group_at, common_prefix, top_layer}

module _ {Cid : Type 0} where
  abbrev pub pairs : List (Item Cid) → List (Bytes × Cid)
  pairs [] = []
  pairs (x ∷ xs) = (x.key, x.value) ∷ pairs xs

  abbrev pub group_pairs : List (Group Cid) → List (Bytes × Cid)
  group_pairs [] = []
  group_pairs ((x, following) ∷ groups) = (x.key, x.value) ∷ pairs following ++ group_pairs groups

  -- The cut loses nothing and keeps the order.
  pub pairs-group_at :
      (at : ℕ) (xs : List (Item Cid))
      → pairs xs ≡ pairs (group_at at xs).0 ++ group_pairs (group_at at xs).1
  unfolding group_at
  pairs-group_at at [] = refl
  pairs-group_at at (x ∷ xs) = ground (arith, pairs-group_at at xs)

  abbrev pub AreBelow : ℕ → List (Item Cid) → Type 0
  AreBelow at = All (λ x. x.layer < at)

  -- The anchors are at the layer, and what stands between them is below it.
  abbrev pub AreCut : ℕ → List (Group Cid) → Type 0
  AreCut at = All (λ g. (g.0.layer ≡ at) × AreBelow at g.1)

  pub group_at-AreCut :
      (at : ℕ) (xs : List (Item Cid))
      → AreBelow (suc at) xs
      → AreBelow at (group_at at xs).0 × AreCut at (group_at at xs).1
  unfolding group_at
  group_at-AreCut at [] h = (tt, tt)
  group_at-AreCut at (x ∷ xs) h = ground (arith, group_at-AreCut at xs h.1, ==_iff x.layer at)

  pub AreBelow-top_layer : (xs : List (Item Cid)) → AreBelow (suc (top_layer xs)) xs
  unfolding top_layer
  AreBelow-top_layer xs = up xs (top_layer xs) (omega arith)
    where
      up : (ys : List (Item Cid)) (n : ℕ) → top_layer ys ≤ n → AreBelow (suc n) ys
      up [] n h = tt
      up (y ∷ ys) n h = (omega arith, up ys n (omega arith))

-- The prefix shared with the key before, and the rest, make up the key.
pub common_prefix-append :
    (previous key : Bytes)
    → key ≡ take (common_prefix previous key) previous ++ drop (common_prefix previous key) key
unfolding common_prefix
common_prefix-append [] key = refl
common_prefix-append (a ∷ previous) [] = refl
common_prefix-append (a ∷ previous) (b ∷ key) =
    ground (arith, common_prefix-append previous key, ==_iff a b)
