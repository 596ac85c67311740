-- ===== src/Credentials/Revision/Order.antt =====
-- Revisions are valid, and ordered as their times.
use psky.Prelude.{
  ℕ, zero, suc, ◌*◌, ◌/◌, ◌%◌, ◌^◌, ◌<◌, ◌≡◌, refl, sym, ◌⊎◌, inl, true, not, ◌||◌, Bytes,
  bytes_cmp, Ordering, arith, [], ◌∷◌, ◌+◌, ltb, length, all,
}
use mathlib.Core.Path.{subst}
use psky.Prelude.Tables.{all_below, all_below_sound}
use psky.Prelude.Text.{codes, one_of}
use psky.Repo.Syntax.{tid_alphabet, rev_valid}
use psky.Credentials.Revision.{saturating_mul, byte_at, digit, fill, revision}

digit_table : all_below 32 (λ x. one_of tid_alphabet (byte_at x tid_alphabet)) ≡ true
unfolding all_below byte_at
digit_table = refl

digit-valid : (v : ℕ) → one_of tid_alphabet (digit v) ≡ true
unfolding digit
digit-valid v =
    all_below_sound 32 (λ x. one_of tid_alphabet (byte_at x tid_alphabet)) (v % 32) digit_table
      (omega arith)

low_table : all_below 16 (λ x. one_of (codes "234567abcdefghij") (byte_at x tid_alphabet)) ≡ true
unfolding all_below byte_at
low_table = refl

digit-low : (v : ℕ) → v < 16 → one_of (codes "234567abcdefghij") (digit v) ≡ true
unfolding digit
digit-low v h =
    let same : v % 32 ≡ v = omega arith in
    subst (λ k. one_of (codes "234567abcdefghij") (byte_at k tid_alphabet) ≡ true) (sym same)
      (all_below_sound 16 (λ x. one_of (codes "234567abcdefghij") (byte_at x tid_alphabet)) v
        low_table h)

fill-valid :
    (n v : ℕ) (written : Bytes)
    → all (one_of tid_alphabet) written ≡ true
    → all (one_of tid_alphabet) (fill n v written) ≡ true
unfolding fill
fill-valid zero v written h = h
fill-valid (suc n) v written h = fill-valid n (v / 32) (digit v ∷ written) (rw (digit-valid v) h)

length-fill : (n v : ℕ) (written : Bytes) → length (fill n v written) ≡ n + length written
unfolding fill
length-fill zero v written = omega arith
length-fill (suc n) v written = omega (arith, length-fill n (v / 32) (digit v ∷ written))

rev_valid-parts :
    (c : ℕ) (s : Bytes)
    → length (c ∷ s) ≡ 13
    → one_of (codes "234567abcdefghij") c ≡ true
    → all (one_of tid_alphabet) (c ∷ s) ≡ true
    → rev_valid (c ∷ s) ≡ true
unfolding rev_valid
rev_valid-parts c s l f a = rw (f, a, l)

-- Every time gives a revision that the repository's syntax check accepts.
pub revision-valid : (seconds : ℕ) → rev_valid (revision seconds) ≡ true
revision-valid seconds =
    unfold revision in
    let v = saturating_mul (saturating_mul seconds 1_000_000) 1024 in
    rev_valid-parts _ _ (length-fill 13 v [])
      (digit-low _ (small v (unfold saturating_mul in omega arith))) (fill-valid 13 v [] refl)
  where
    small :
        (v : ℕ) → v < 2 ^ 64 → v / 32 / 32 / 32 / 32 / 32 / 32 / 32 / 32 / 32 / 32 / 32 / 32 < 16
    small v h = omega arith

order_table :
    all_below 32 (λ x.
      all_below 32 (λ y. not (ltb x y) || ltb (byte_at x tid_alphabet) (byte_at y tid_alphabet)))
    ≡ true
unfolding all_below byte_at
order_table = refl

digit_mono : (a b : ℕ) → a % 32 < b % 32 → digit a < digit b
unfolding digit
digit_mono a b h = ground (
  arith,
  all_below_sound 32
      (λ (y : ℕ).
        not (ltb (a % 32) y) || ltb (byte_at (a % 32) tid_alphabet) (byte_at y tid_alphabet))
      (b % 32)
      (all_below_sound 32
        (λ x.
          all_below 32
            (λ y. not (ltb x y) || ltb (byte_at x tid_alphabet) (byte_at y tid_alphabet)))
        (a % 32) order_table (omega arith))
      (omega arith),
)

-- The numbers that `n` digits can write.
capacity : ℕ → ℕ
capacity zero = 1
capacity (suc n) = 32 * capacity n

next :
    (a b : ℕ) (u w : Bytes)
    → (a < b) ⊎ ((a ≡ b) × (bytes_cmp u w ≡ Ordering.lt))
    → (a / 32 < b / 32)
      ⊎ ((a / 32 ≡ b / 32) × (bytes_cmp (digit a ∷ u) (digit b ∷ w) ≡ Ordering.lt))
unfolding bytes_cmp
next a b u w h = ground (arith, digit_mono a b)

fill_mono :
    (n a b : ℕ) (u w : Bytes)
    → a < capacity n
    → b < capacity n
    → (a < b) ⊎ ((a ≡ b) × (bytes_cmp u w ≡ Ordering.lt))
    → bytes_cmp (fill n a u) (fill n b w) ≡ Ordering.lt
unfolding fill capacity
fill_mono zero a b u w ha hb h = ground arith
fill_mono (suc n) a b u w ha hb h =
    fill_mono n (a / 32) (b / 32) (digit a ∷ u) (digit b ∷ w) (omega arith) (omega arith)
      (next a b u w h)

-- A later time gives a later revision, while the microseconds times 1024 fit 64 bits.
pub revision_mono :
    (s t : ℕ)
    → s < t
    → t * 1_000_000 * 1024 < 2 ^ 64
    → bytes_cmp (revision s) (revision t) ≡ Ordering.lt
unfolding revision
revision_mono s t h k =
    let a = saturating_mul (saturating_mul s 1_000_000) 1024 in
    let b = saturating_mul (saturating_mul t 1_000_000) 1024 in
    fill_mono 13 a b [] [] (fits a (unfold saturating_mul in omega arith))
      (fits b (unfold saturating_mul in omega arith)) (inl (unfold saturating_mul in omega arith))
  where
    fits : (v : ℕ) → v < 2 ^ 64 → v < capacity 13
    fits v h = unfold capacity in omega arith
