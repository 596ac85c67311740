-- ===== src/Repo/Mst/Faithful.antt =====
-- `build` writes a search tree of exactly its mapping, and never fails on its own account.
use mathlib.Core.Path.{subst}
use psky.Prelude.{
  ℕ, zero, suc, ◌≡◌, refl, sym, ap, ◌∙◌, Option, none, some, Bytes, bytes_ord, Ord, Result, ok,
  arith, List, [], ◌∷◌, All, drop,
}
use psky.Prelude.Sorted
use psky.Prelude.Sorted.{Map, get-insert}
use psky.Repo.Error.{Error}
use psky.Repo.Library.{Library, Node, Entry, node}
use psky.Repo.Records.{cid_for, encode}
use psky.Repo.Mst.{
  Item, Group, Blocks, Writes, layer, child, write_entries, write_node, subtree, build, group_at,
  items_of, top_layer, common_prefix,
}
use psky.Repo.Mst.Store.{insert-IsKeyed, insert-Extends, lookup-insert}
use psky.Repo.Mst.Groups.{
  pairs, group_pairs, pairs-group_at, AreBelow, AreCut, group_at-AreCut, AreBelow-top_layer,
  common_prefix-append,
}
use psky.Repo.Mst.Reads.{
  Reads, ReadsEntries, absent, present, done, next, Extends, IsKeyed, Reads-extends,
  ReadsEntries-extends,
}

-- The section's hypotheses: distinct bytes have distinct identifiers, as SHA-256 is used, and a node
-- can be serialized.
module _ (lib : Library) (injective : (a b : Bytes) → cid_for lib a ≡ cid_for lib b → a ≡ b)
    (encodes : (n : Node lib.Cid) → (bytes : Bytes) × (lib.to_vec (node n) ≡ ok bytes)) where
  open lib use {Cid}

  instance abbrev order : Ord Cid
  order = lib.cid_ord

  -- Items whose layers are those of their keys.
  abbrev AreLayered : List (Item Cid) → Type 0
  AreLayered = All (λ x. x.layer ≡ layer lib x.key)

  -- A call wrote a tree of the entries below layer `n`.
  record Wrote (n : ℕ) (entries : List (Bytes × Cid)) (blocks : Blocks lib)
      (r : Result Error (Option Cid × Blocks lib)) : Type 0 where
    tree : Option Cid
    written : Blocks lib
    returned : r ≡ ok (tree, written)
    keyed : IsKeyed lib written
    extends : Extends lib blocks written
    reads : Reads lib written n tree entries

  IsChild : ℕ → (List (Item Cid) → Writes lib (Option Cid)) → Type 0
  IsChild n below =
      (xs : List (Item Cid)) (blocks : Blocks lib)
      → IsKeyed lib blocks
      → AreBelow n xs
      → AreLayered xs
      → Wrote n (pairs xs) blocks (below xs blocks)

  child-none : IsChild 0 (child lib none)
  unfolding child IsChild
  child-none [] blocks k b l = record {
    tree = none;
    written = blocks;
    returned = refl;
    keyed = k;
    extends = λ c bytes h. h;
    reads = absent;
  }
  child-none (x ∷ xs) blocks k b l = absurd (omega arith)

  record WroteNode (n : ℕ) (entries : List (Bytes × Cid)) (blocks : Blocks lib)
      (r : Result Error (Cid × Blocks lib)) : Type 0 where
    cid : Cid
    written : Blocks lib
    returned : r ≡ ok (cid, written)
    keyed : IsKeyed lib written
    extends : Extends lib blocks written
    reads : Reads lib written n (some cid) entries

  record WroteEntries (at : ℕ) (previous : Bytes) (pairs : List (Bytes × Cid)) (blocks : Blocks lib)
      (r : Result Error (List (Entry Cid) × Blocks lib)) : Type 0 where
    entries : List (Entry Cid)
    written : Blocks lib
    returned : r ≡ ok (entries, written)
    keyed : IsKeyed lib written
    extends : Extends lib blocks written
    reads : ReadsEntries lib written at previous entries pairs

  AreLayeredGroups : List (Group Cid) → Type 0
  AreLayeredGroups = All (λ g. (g.0.layer ≡ layer lib g.0.key) × AreLayered g.1)

  group_at-layered :
      (at : ℕ) (xs : List (Item Cid))
      → AreLayered xs
      → AreLayered (group_at at xs).0 × AreLayeredGroups (group_at at xs).1
  unfolding group_at AreLayeredGroups
  group_at-layered at [] l = (tt, tt)
  group_at-layered at (x ∷ xs) l = ground (arith, group_at-layered at xs l.1)

  module _ (at : ℕ) (below : List (Item Cid) → Writes lib (Option Cid))
      (good : IsChild at below) where
    write_entries-Wrote :
        (previous : Bytes) (groups : List (Group Cid)) (blocks : Blocks lib)
        → IsKeyed lib blocks
        → AreCut at groups
        → AreLayeredGroups groups
        → WroteEntries at previous
            (group_pairs groups)
            blocks
            (write_entries lib below previous groups blocks)
    unfolding write_entries IsChild AreLayeredGroups
    write_entries-Wrote previous [] blocks k cut l = record {
      entries = [];
      written = blocks;
      returned = refl;
      keyed = k;
      extends = λ c bytes h. h;
      reads = done;
    }
    write_entries-Wrote previous ((x, following) ∷ groups) blocks k cut l =
        let sub = good following blocks k cut.0.1 l.0.1 in
        let rest = write_entries-Wrote x.key groups sub.written sub.keyed cut.1 l.1 in
        let prefix = common_prefix previous x.key in
        record {
          entries =
              record { p = prefix; k = drop prefix x.key; v = x.value; t = sub.tree }
              ∷ rest.entries;
          written = rest.written;
          returned = rw (sub.returned, rest.returned);
          keyed = rest.keyed;
          extends = λ c bytes h. rest.extends c bytes (sub.extends c bytes h);
          reads =
              next x.key (pairs following) (group_pairs groups)
                (common_prefix-append previous x.key) (sym l.0.0 ∙ cut.0.0)
                (Reads-extends rest.extends sub.reads) rest.reads refl;
        }

    write_node-Wrote :
        (xs : List (Item Cid)) (blocks : Blocks lib)
        → IsKeyed lib blocks
        → AreBelow (suc at) xs
        → AreLayered xs
        → WroteNode (suc at) (pairs xs) blocks (write_node lib at below xs blocks)
    unfolding write_node encode IsChild
    write_node-Wrote xs blocks k b l =
        let groups = group_at at xs in
        let (lower, cut) = group_at-AreCut at xs b in
        let (left_layered, layered) = group_at-layered at xs l in
        let left = good groups.0 blocks k lower left_layered in
        let rest = write_entries-Wrote [] groups.1 left.written left.keyed cut layered in
        let n : Node Cid = record { l = left.tree; e = rest.entries } in
        let (bytes, encoded) = encodes n in
        let more = insert-Extends lib injective rest.written bytes rest.keyed in
        record {
          cid = cid_for lib bytes;
          written = Sorted.insert (cid_for lib bytes) bytes rest.written;
          returned = rw (left.returned, rest.returned, encoded);
          keyed = insert-IsKeyed lib rest.written bytes rest.keyed;
          extends = λ c found h. more c found (rest.extends c found (left.extends c found h));
          reads =
              present n bytes (pairs groups.0) (group_pairs groups.1)
                (lookup-insert lib rest.written bytes) refl encoded
                (Reads-extends more (Reads-extends rest.extends left.reads))
                (ReadsEntries-extends more rest.reads) (pairs-group_at at xs);
        }

  IsSubtree : ℕ → (List (Item Cid) → Writes lib Cid) → Type 0
  IsSubtree n f =
      (xs : List (Item Cid)) (blocks : Blocks lib)
      → IsKeyed lib blocks
      → AreBelow n xs
      → AreLayered xs
      → WroteNode n (pairs xs) blocks (f xs blocks)

  child-some :
      (n : ℕ) (f : List (Item Cid) → Writes lib Cid)
      → IsSubtree n f
      → IsChild n (child lib (some f))
  unfolding child IsChild IsSubtree
  child-some n f good [] blocks k b l = record {
    tree = none;
    written = blocks;
    returned = refl;
    keyed = k;
    extends = λ c bytes h. h;
    reads = absent;
  }
  child-some n f good (x ∷ xs) blocks k b l =
      let sub = good (x ∷ xs) blocks k b l in
      record {
        tree = some sub.cid;
        written = sub.written;
        returned = rw sub.returned;
        keyed = sub.keyed;
        extends = sub.extends;
        reads = sub.reads;
      }

  subtree-Wrote : (at : ℕ) → IsSubtree (suc at) (subtree lib at)
  unfolding subtree IsSubtree
  subtree-Wrote zero = write_node-Wrote 0 (child lib none) child-none
  subtree-Wrote (suc at) =
      write_node-Wrote (suc at) (child lib (some (subtree lib at)))
        (child-some (suc at) (subtree lib at) (subtree-Wrote at))

  items_of-layered : (mapping : Map Bytes Cid) → AreLayered (items_of lib mapping)
  unfolding items_of
  items_of-layered [] = tt
  items_of-layered (e ∷ mapping) = (refl, items_of-layered mapping)

  pairs-items_of : (mapping : Map Bytes Cid) → pairs (items_of lib mapping) ≡ mapping
  unfolding items_of
  pairs-items_of [] = refl
  pairs-items_of (e ∷ mapping) = ap (λ rest. e ∷ rest) (pairs-items_of mapping)

  -- If distinct bytes have distinct identifiers and nodes can be encoded, `build` succeeds on
  -- every mapping, from blocks that are under the identifiers of their bytes, and keeps them. The
  -- blocks that it returns are all under the identifiers of their bytes, and under the root they
  -- hold a search tree of exactly the mapping: every key whole again from its prefixes, at its
  -- own layer, in the mapping's order.
  pub build-Reads :
      (mapping : Map Bytes Cid) (blocks : Blocks lib)
      → IsKeyed lib blocks
      → (root : Cid) × (written : Blocks lib) × (build lib mapping blocks ≡ ok (root, written))
        × IsKeyed lib written
        × Extends lib blocks written
        × Reads lib written (suc (top_layer (items_of lib mapping))) (some root) mapping
  unfolding build IsSubtree
  build-Reads mapping blocks k =
      let items = items_of lib mapping in
      let w =
        subtree-Wrote (top_layer items) items blocks k (AreBelow-top_layer items)
          (items_of-layered mapping) in
      (
        w.cid,
        w.written,
        w.returned,
        w.keyed,
        w.extends,
        subst (λ xs. Reads lib w.written (suc (top_layer items)) (some w.cid) xs)
            (pairs-items_of mapping) w.reads,
      )
