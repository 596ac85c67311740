-- ===== src/Prelude/Order.antt =====
-- Total orders, as `std::cmp::Ord`: an interface, and its instance for byte strings.
use Prim.Native.Nat.{ℕ, compare, Ordering}
use mathlib.Core.Path.{◌≡◌, refl}
use mathlib.Core.Logic.{◌↔◌, ◌⊎◌, inl, inr}
use mathlib.Core.Bool.{Bool, true, false}
use mathlib.Core.List.{List, [], ◌∷◌}
use native.Mathlib.Omega.{arith}

pub record Ord {ℓ} (A : Type ℓ) : Type ℓ where
  pub cmp : A → A → Ordering
  pub cmp_eq : (a b : A) → (cmp a b ≡ Ordering.eq) ↔ (a ≡ b)
  pub cmp_gt : (a b : A) → cmp a b ≡ Ordering.gt → cmp b a ≡ Ordering.lt
  pub cmp_trans :
      (a b c : A) → cmp a b ≡ Ordering.lt → cmp b c ≡ Ordering.lt → cmp a c ≡ Ordering.lt

pub Ordering-cases : (o : Ordering) → (o ≡ Ordering.lt) ⊎ (o ≡ Ordering.eq) ⊎ (o ≡ Ordering.gt)
Ordering-cases Ordering.lt = inl refl
Ordering-cases Ordering.eq = inr (inl refl)
Ordering-cases Ordering.gt = inr (inr refl)

abbrev is_eq : Ordering → Bool
is_eq Ordering.eq = true
is_eq _ = false

-- Equality read off the order, as the derived `Eq` agrees with the derived `Ord`.
infix 50 ◌=?◌
abbrev pub ◌=?◌ {ℓ} : {A : Type ℓ} ⦃o : Ord A⦄ → A → A → Bool
◌=?◌ ⦃o⦄ a b = is_eq (o.cmp a b)

module _ {ℓ} {A : Type ℓ} ⦃o : Ord A⦄ where
  pub =?_iff : (a b : A) → ((a =? b) ≡ true) ↔ (a ≡ b)
  =?_iff a b = (λ h. (o.cmp_eq a b).0 (ground arith), λ h. rw ((o.cmp_eq a b).1 h))

  pub =?_refl : (a : A) → (a =? a) ≡ true
  =?_refl a = (=?_iff a a).1 refl

abbrev pub Bytes : Type 0
Bytes = List ℕ

unfoldable pub bytes_cmp : Bytes → Bytes → Ordering
bytes_cmp [] [] = Ordering.eq
bytes_cmp [] (y ∷ ys) = Ordering.lt
bytes_cmp (x ∷ xs) [] = Ordering.gt
bytes_cmp (x ∷ xs) (y ∷ ys) = elim (compare x y) [
  | Ordering.lt ↦ Ordering.lt
  | Ordering.eq ↦ bytes_cmp xs ys
  | Ordering.gt ↦ Ordering.gt
]

bytes_cmp_refl : (xs : Bytes) → bytes_cmp xs xs ≡ Ordering.eq
unfolding bytes_cmp
bytes_cmp_refl [] = refl
bytes_cmp_refl (x ∷ xs) = ground (arith, bytes_cmp_refl xs)

bytes_cmp-eq : (xs ys : Bytes) → bytes_cmp xs ys ≡ Ordering.eq → xs ≡ ys
unfolding bytes_cmp
bytes_cmp-eq [] [] h = refl
bytes_cmp-eq [] (y ∷ ys) h = cc
bytes_cmp-eq (x ∷ xs) [] h = cc
bytes_cmp-eq (x ∷ xs) (y ∷ ys) h = ground (arith, bytes_cmp-eq xs ys)

pub bytes_cmp-gt : (xs ys : Bytes) → bytes_cmp xs ys ≡ Ordering.gt → bytes_cmp ys xs ≡ Ordering.lt
unfolding bytes_cmp
bytes_cmp-gt [] [] h = cc
bytes_cmp-gt [] (y ∷ ys) h = cc
bytes_cmp-gt (x ∷ xs) [] h = refl
bytes_cmp-gt (x ∷ xs) (y ∷ ys) h = ground (arith, bytes_cmp-gt xs ys)

pub bytes_cmp_trans :
    (xs ys zs : Bytes)
    → bytes_cmp xs ys ≡ Ordering.lt
    → bytes_cmp ys zs ≡ Ordering.lt
    → bytes_cmp xs zs ≡ Ordering.lt
unfolding bytes_cmp
bytes_cmp_trans [] [] zs h k = cc
bytes_cmp_trans [] (y ∷ ys) [] h k = cc
bytes_cmp_trans [] (y ∷ ys) (z ∷ zs) h k = refl
bytes_cmp_trans (x ∷ xs) [] zs h k = cc
bytes_cmp_trans (x ∷ xs) (y ∷ ys) [] h k = cc
bytes_cmp_trans (x ∷ xs) (y ∷ ys) (z ∷ zs) h k = ground (arith, bytes_cmp_trans xs ys zs)

pub bytes_cmp_iff : (xs ys : Bytes) → (bytes_cmp xs ys ≡ Ordering.eq) ↔ (xs ≡ ys)
bytes_cmp_iff xs ys = (bytes_cmp-eq xs ys, λ h. rw h (bytes_cmp_refl ys))

instance abbrev pub bytes_ord : Ord Bytes
bytes_ord = record {
  cmp = bytes_cmp;
  cmp_eq = bytes_cmp_iff;
  cmp_gt = bytes_cmp-gt;
  cmp_trans = bytes_cmp_trans;
}
