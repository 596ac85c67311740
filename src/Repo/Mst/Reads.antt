-- ===== src/Repo/Mst/Reads.antt =====
-- What it means that blocks hold a Merkle search tree of a list of entries.
use psky.Prelude.{ℕ, suc, ◌≡◌, Option, none, some, Bytes, ok, List, [], ◌∷◌, ◌++◌, All, take}
use psky.Prelude.Sorted
use psky.Repo.Library.{Library, Node, Entry, node}
use psky.Repo.Records.{cid_for}
use psky.Repo.Mst.{Blocks, layer}

abbrev pub lookup : (lib : Library) → lib.Cid → Blocks lib → Option Bytes
lookup lib = Sorted.get ⦃o = lib.cid_ord⦄

-- `Reads n c xs`: an absent link holds nothing. A link below layer `n` is the identifier of a node
-- block at the layer just under `n`; in it stand the entries left of the first key, then each key,
-- whose prefix is taken from the key before it, with the entries that its own subtree holds. Every
-- key of the node has the node's layer, and every link goes down by one layer.
mutual
  pub data Reads (lib : Library) (blocks : Blocks lib)
      : ℕ → Option lib.Cid → List (Bytes × lib.Cid) → Type 0 where
    absent : {n : ℕ} → Reads lib blocks n none []
    present :
        {at : ℕ} {c : lib.Cid} {all : List (Bytes × lib.Cid)} (n : Node lib.Cid) (bytes : Bytes)
        (before rest : List (Bytes × lib.Cid))
        → lookup lib c blocks ≡ some bytes
        → c ≡ cid_for lib bytes
        → lib.to_vec (node n) ≡ ok bytes
        → Reads lib blocks at n.l before
        → ReadsEntries lib blocks at [] n.e rest
        → all ≡ before ++ rest
        → Reads lib blocks (suc at) (some c) all

  pub data ReadsEntries (lib : Library) (blocks : Blocks lib)
      : ℕ → Bytes → List (Entry lib.Cid) → List (Bytes × lib.Cid) → Type 0 where
    done : {at : ℕ} {previous : Bytes} → ReadsEntries lib blocks at previous [] []
    next :
        {at : ℕ} {previous : Bytes} {e : Entry lib.Cid} {es : List (Entry lib.Cid)}
        {all : List (Bytes × lib.Cid)} (key : Bytes) (inner rest : List (Bytes × lib.Cid))
        → key ≡ take e.p previous ++ e.k
        → layer lib key ≡ at
        → Reads lib blocks at e.t inner
        → ReadsEntries lib blocks at key es rest
        → all ≡ (key, e.v) ∷ inner ++ rest
        → ReadsEntries lib blocks at previous (e ∷ es) all

-- Blocks that hold all that others hold.
abbrev pub Extends : (lib : Library) → Blocks lib → Blocks lib → Type 0
Extends lib old new =
    (c : lib.Cid) (bytes : Bytes) → lookup lib c old ≡ some bytes → lookup lib c new ≡ some bytes

-- Every block stands under the identifier of its bytes.
abbrev pub IsKeyed : (lib : Library) → Blocks lib → Type 0
IsKeyed lib = All (λ e. e.0 ≡ cid_for lib e.1)

module _ {lib : Library} {old new : Blocks lib} (more : Extends lib old new) where
  mutual
    pub Reads-extends :
        {n : ℕ} {c : Option lib.Cid} {xs : List (Bytes × lib.Cid)}
        → Reads lib old n c xs
        → Reads lib new n c xs
    Reads-extends absent = absent
    Reads-extends (present {c = c} n bytes before rest found id encoded left entries split) =
        present n bytes before rest (more c bytes found) id encoded (Reads-extends left)
          (ReadsEntries-extends entries) split

    pub ReadsEntries-extends :
        {at : ℕ} {previous : Bytes} {es : List (Entry lib.Cid)} {xs : List (Bytes × lib.Cid)}
        → ReadsEntries lib old at previous es xs
        → ReadsEntries lib new at previous es xs
    ReadsEntries-extends done = done
    ReadsEntries-extends (next key inner rest whole high tree entries split) =
        next key inner rest whole high (Reads-extends tree) (ReadsEntries-extends entries) split
