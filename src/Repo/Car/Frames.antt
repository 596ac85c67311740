-- ===== src/Repo/Car/Frames.antt =====
-- An export is read back as its header and its blocks.
use mathlib.Core.List.{append_assoc, append-nil}
use psky.Prelude.{
  ℕ, zero, suc, ◌+◌, ◌≤◌, ◌<◌, ◌≡◌, refl, sym, ap, ◌∙◌, inl, inr, true, false, not, Option, none,
  some, Bytes, Ord, ok, err, arith, List, [], ◌∷◌, ◌++◌, map, leb, Bool-cases, length, take, drop,
  length-append, take-length-append, drop-length-append, select, ◌=?◌,
}
use psky.Repo.Error.{verification}
use psky.Repo.Library.{Library, header}
use psky.Repo.Records.{encode}
use psky.Repo.Mst.{Blocks}
use psky.Repo.Mst.Reads.{lookup}
use psky.Repo.Car.{varint, block, other_blocks, export}
use psky.Repo.Car.Varint.{read_varint, read_varint-empty, varint-append, varint-cons}

-- A reader of length-prefixed frames up to the end of the file; `none` for anything else.
unfoldable pub read_frames : ℕ → Bytes → Option (List Bytes)
read_frames zero s = none
read_frames (suc fuel) [] = some []
read_frames (suc fuel) (b ∷ s) = elim (read_varint (b ∷ s)) [
  | none ↦ none
  | some (n, rest) ↦ elim (leb n (length rest)) [
    | false ↦ none
    | true ↦ elim (read_frames fuel (drop n rest)) [
      | none ↦ none
      | some frames ↦ some (take n rest ∷ frames)
    ]
  ]
]

abbrev frame : Bytes → Bytes
frame body = varint (length body) [] ++ body

abbrev pub joined : List Bytes → Bytes
joined [] = []
joined (f ∷ fs) = frame f ++ joined fs

read_frames_step :
    (fuel b : ℕ) (t : Bytes) (n : ℕ) (rest : Bytes) (fs : List Bytes)
    → read_varint (b ∷ t) ≡ some (n, rest)
    → n ≤ length rest
    → read_frames fuel (drop n rest) ≡ some fs
    → read_frames (suc fuel) (b ∷ t) ≡ some (take n rest ∷ fs)
unfolding read_frames
read_frames_step fuel b t n rest fs e h more = ground arith

read_frames-joined :
    (fuel : ℕ) (fs : List Bytes) → length fs < fuel → read_frames fuel (joined fs) ≡ some fs
unfolding read_frames
read_frames-joined zero fs h = absurd (omega arith)
read_frames-joined (suc fuel) [] h = refl
read_frames-joined (suc fuel) (f ∷ fs) h =
    let (b, t, e) = varint-cons (length f) in
    let rest : Bytes = f ++ joined fs in
    let split : joined (f ∷ fs) ≡ b ∷ (t ++ rest) =
      append_assoc (varint (length f) []) f (joined fs) ∙ ap (λ (s : Bytes). s ++ rest) e in
    let read : read_varint (b ∷ (t ++ rest)) ≡ some (length f, rest) =
      ap (λ (s : Bytes). read_varint (s ++ rest)) (sym e) ∙ read_varint-empty (length f) rest in
    rw split (
      read_frames_step fuel b (t ++ rest) (length f) rest fs read
        (omega (arith, length-append f (joined fs)))
        (rw (drop-length-append f (joined fs)) (read_frames-joined fuel fs (omega arith)))
      ∙ ap (λ (s : Bytes). some (s ∷ fs)) (take-length-append f (joined fs)))

joined-append : (fs gs : List Bytes) → joined (fs ++ gs) ≡ joined fs ++ joined gs
joined-append [] gs = refl
joined-append (f ∷ fs) gs =
    ap (◌++◌ (frame f)) (joined-append fs gs) ∙ sym (append_assoc (frame f) (joined fs) (joined gs))

module _ (lib : Library) where
  open lib use {Cid, cid_bytes}

  instance abbrev order : Ord Cid
  order = lib.cid_ord

  -- The body of a block's frame: its identifier and its bytes.
  abbrev pub section : Cid × Bytes → Bytes
  section (cid, bytes) = cid_bytes cid ++ bytes

  -- The blocks other than the root, in the order of the map.
  abbrev pub others : Cid → Blocks lib → List Bytes
  others root blocks = map section (select (λ e. not (e.0 =? root)) blocks)

  block-eq :
      (cid : Cid) (bytes out : Bytes)
      → block lib cid bytes out ≡ out ++ frame (section (cid, bytes))
  unfolding block
  block-eq cid bytes out =
      rw
        (← length-append (cid_bytes cid) bytes, varint-append (length (cid_bytes cid ++ bytes)) out)
        (append_assoc out (varint (length (cid_bytes cid ++ bytes)) []) (cid_bytes cid ++ bytes))

  other_blocks-eq :
      (root : Cid) (blocks : Blocks lib) (out : Bytes)
      → other_blocks lib root blocks out ≡ out ++ joined (others root blocks)
  unfolding other_blocks
  other_blocks-eq root [] out = sym (append-nil out)
  other_blocks-eq root ((cid, bytes) ∷ blocks) out = elim (Bool-cases (cid =? root)) [
    | inl e ↦ rw e (other_blocks-eq root blocks out)
    | inr e ↦
        rw (e, block-eq cid bytes out)
          (other_blocks-eq root blocks (out ++ frame (section (cid, bytes)))
            ∙ append_assoc out (frame (section (cid, bytes))) (joined (others root blocks)))
  ]

  -- Where the header is encoded: with a root among the blocks, an export is read back as the
  -- header, then the root's block, then every other block once, in the order of the map; without
  -- one it is refused.
  pub export-frames :
      (root : Cid) (blocks : Blocks lib) (head : Bytes)
      → encode lib (header (record { roots = root ∷ []; version = 1 })) ≡ ok head
      → (lookup lib root blocks ≡ none
          → export lib root blocks ≡ err (verification "missing CAR root"))
        × ((bytes : Bytes)
            → lookup lib root blocks ≡ some bytes
            → (out : Bytes) × (export lib root blocks ≡ ok out)
              × (read_frames (length (others root blocks) + 3) out
                  ≡ some (head ∷ section (root, bytes) ∷ others root blocks)))
  unfolding export
  export-frames root blocks head e = (
    λ missing. rw (e, missing),
    λ bytes found. (
      joined (head ∷ section (root, bytes) ∷ others root blocks),
      rw (e, found) (ap ok (all_blocks bytes)),
      read_frames-joined (length (others root blocks) + 3)
          (head ∷ section (root, bytes) ∷ others root blocks) (omega arith),
    ),
  )
    where
      all_blocks :
          (bytes : Bytes)
          → other_blocks lib root blocks (block lib root bytes (varint (length head) [] ++ head))
            ≡ joined (head ∷ section (root, bytes) ∷ others root blocks)
      all_blocks bytes =
          other_blocks-eq root blocks (block lib root bytes (frame head))
          ∙ ap (λ (s : Bytes). s ++ joined (others root blocks)) (block-eq root bytes (frame head))
          ∙ append_assoc (frame head) (frame (section (root, bytes))) (joined (others root blocks))
