-- ===== src/Repo/Syntax/Paths.antt =====
-- What the path check of crates/psky-repo/src/syntax.rs accepts.
use psky.Prelude.{
  ◌≡◌, ◌≢◌, ◌↔◌, inl, inr, refl, ap, ◌∙◌, true, false, not, Bytes, ok, arith, List, [], ◌++◌, ◌∷◌,
  all, Option-cases, Bool-cases,
}
use mathlib.Core.List.{append_assoc}
use psky.Prelude.Text.{
  has_byte, split_once, split_once-append, rsplit_once, split, is_ascii_alphanumeric,
}
use psky.Prelude.Text.Separators.{
  has_byte-append, has_byte_of_all, has_byte_of_split, rsplit_once_sound, split_once-exists,
}
use psky.Repo.Syntax.{
  path, nsid_valid, nsid_parts_valid, key_valid, is_key_byte, segment_valid, is_label_byte,
}

key_valid-has_byte : (key : Bytes) → key_valid key ≡ true → has_byte b'/' key ≡ false
unfolding key_valid is_ascii_alphanumeric
key_valid-has_byte key h = has_byte_of_all b'/' is_key_byte key refl (ground arith)

segment_valid-has_byte : (s : Bytes) → segment_valid s ≡ true → has_byte b'/' s ≡ false
unfolding segment_valid
segment_valid-has_byte s h = has_byte_of_all b'/' is_label_byte s refl (ground arith)

segments-has_byte :
    (parts : List Bytes)
    → all segment_valid parts ≡ true
    → all (λ part. not (has_byte b'/' part)) parts ≡ true
segments-has_byte [] h = refl
segments-has_byte (s ∷ parts) h = ground (arith, segment_valid-has_byte s, segments-has_byte parts)

nsid_parts-has_byte :
    (nsid authority name : Bytes)
    → nsid_parts_valid nsid authority name ≡ true
    → has_byte b'/' (authority ++ b'.' ∷ name) ≡ false
unfolding nsid_parts_valid is_ascii_alphanumeric
nsid_parts-has_byte nsid authority name h = ground (
  arith,
  has_byte-append b'/' authority (b'.' ∷ name),
  has_byte_of_all b'/' is_ascii_alphanumeric name refl,
  segments-has_byte (split b'.' authority),
  has_byte_of_split b'/' b'.' authority (omega arith),
)

nsid_valid-has_byte : (nsid : Bytes) → nsid_valid nsid ≡ true → has_byte b'/' nsid ≡ false
unfolding nsid_valid
nsid_valid-has_byte nsid h = elim (Option-cases (rsplit_once b'.' nsid)) [
  | inl e ↦ absurd (ground arith)
  | inr ((authority, name), e) ↦
      rw (rsplit_once_sound b'.' nsid authority name e)
        (nsid_parts-has_byte nsid authority name (rw (e, nsid_valid) at h))
]

-- Where the first half has a slash of its own, the rest is no key.
path-slash : (nsid key : Bytes) → has_byte b'/' nsid ≡ true → path (nsid ++ b'/' ∷ key) ≢ ok tt
unfolding path
path-slash nsid key h accepted =
    let (a, b, p, q) = split_once-exists b'/' nsid h in
    let whole : nsid ++ b'/' ∷ key ≡ a ++ b'/' ∷ (b ++ b'/' ∷ key) =
      ap (λ (s : Bytes). s ++ b'/' ∷ key) p ∙ append_assoc a (b'/' ∷ b) (b'/' ∷ key) in
    ground (
      arith,
      ap (split_once b'/') whole ∙ split_once-append b'/' a (b ++ b'/' ∷ key) q,
      key_valid-has_byte (b ++ b'/' ∷ key),
      has_byte-append b'/' b (b'/' ∷ key),
    )

-- A collection and a key joined by a slash are accepted exactly when each is valid by itself.
pub path-append_iff :
    (nsid key : Bytes)
    → (path (nsid ++ b'/' ∷ key) ≡ ok tt) ↔ ((nsid_valid nsid ≡ true) × (key_valid key ≡ true))
unfolding path
path-append_iff nsid key = (
  accepts,
  λ (v, w). ground (arith, split_once-append b'/' nsid key (nsid_valid-has_byte nsid v)),
)
  where
    accepts : path (nsid ++ b'/' ∷ key) ≡ ok tt → (nsid_valid nsid ≡ true) × (key_valid key ≡ true)
    accepts h = elim (Bool-cases (has_byte b'/' nsid)) [
      | inl e ↦ absurd (path-slash nsid key e h)
      | inr e ↦ ground (arith, split_once-append b'/' nsid key e)
    ]
