-- ===== src/Prelude/Text/Separators.antt =====
-- Which bytes occur in a text that was split.
use psky.Prelude.{
  ℕ, ◌≡◌, ◌≢◌, inl, inr, refl, ap, Bool, true, false, not, ◌||◌, some, Bytes, arith, [], ◌∷◌, ◌++◌,
  all, ◌==◌, ==_iff, Bool-cases,
}
use psky.Prelude.Text.{has_byte, rsplit_once, split}

pub has_byte-append : (c : ℕ) (a b : Bytes) → has_byte c (a ++ b) ≡ (has_byte c a || has_byte c b)
has_byte-append c [] b = refl
has_byte-append c (x ∷ a) b = ground (arith, has_byte-append c a b)

-- A byte that a test refuses is in no text whose bytes all pass it.
pub has_byte_of_all :
    (c : ℕ) (q : ℕ → Bool) (s : Bytes) → q c ≡ false → all q s ≡ true → has_byte c s ≡ false
has_byte_of_all c q [] n h = refl
has_byte_of_all c q (x ∷ s) n h = ground (arith, has_byte_of_all c q s n, ==_iff x c)

-- A byte other than the separator that occurs in no part does not occur at all.
pub has_byte_of_split :
    (c d : ℕ) (s : Bytes)
    → c ≢ d
    → all (λ part. not (has_byte c part)) (split d s) ≡ true
    → has_byte c s ≡ false
unfolding split
has_byte_of_split c d [] n h = refl
has_byte_of_split c d (x ∷ s) n h =
    ground (arith, has_byte_of_split c d s n, ==_iff x c, ==_iff x d)

pub rsplit_once_sound : (c : ℕ) (s a b : Bytes) → rsplit_once c s ≡ some (a, b) → s ≡ a ++ c ∷ b
unfolding rsplit_once
rsplit_once_sound c [] a b h = absurd (cc)
rsplit_once_sound c (x ∷ s) [] b h = ground (arith, ==_iff x c)
rsplit_once_sound c (x ∷ s) (y ∷ a) b h = ground (arith, rsplit_once_sound c s a b)

pub split_once-exists :
    (c : ℕ) (s : Bytes)
    → has_byte c s ≡ true
    → (a : Bytes) × (b : Bytes) × (s ≡ a ++ c ∷ b) × (has_byte c a ≡ false)
split_once-exists c [] h = absurd (cc)
split_once-exists c (x ∷ s) h = elim (Bool-cases (x == c)) [
  | inl e ↦ ([], s, ap (λ y. y ∷ s) ((==_iff x c).0 e), refl)
  | inr e ↦ let (a, b, p, q) = split_once-exists c s (rw e at h) in (x ∷ a, b, ap (◌∷◌ x) p, rw e q)
]
