-- ===== src/Prelude/Sorted.antt =====
-- `std::collections::BTreeMap`: an association list in ascending key order.
use mathlib.Core.Path.{◌≡◌, refl, sym, subst}
use mathlib.Core.Logic.{inl, inr}
use mathlib.Core.Bool.{Bool, false}
use mathlib.Core.Option.{Option, none, some}
use mathlib.Core.List.{List, [], ◌∷◌}
use Prim.Native.Nat.{ℕ, suc, ◌+◌, ◌≤◌, Ordering}
use native.Mathlib.Omega.{arith}
use psky.Prelude.Tests.{if◌then◌else◌, Bool-cases}
use psky.Prelude.Lists.{All, length}
use psky.Prelude.Order.{Ord, ◌=?◌, =?_iff}
use psky.Prelude.Fallible.{map_or, is_some}

abbrev pub Map {ℓ} : Type 0 → Type ℓ → Type ℓ
Map K V = List (K × V)

module _ {K : Type 0} ⦃o : Ord K⦄ where
  pub =?_of_lt : (i j : K) → o.cmp i j ≡ Ordering.lt → (j =? i) ≡ false
  =?_of_lt i j h = elim (Bool-cases (j =? i)) [
    | inl e ↦ absurd (lt_irrefl ((=?_iff j i).0 e))
    | inr e ↦ e
  ]
    where
      lt_irrefl : j ≡ i → ⊥
      lt_irrefl e = cc (h, (o.cmp_eq i j).1 (sym e))

module _ {ℓ} {K : Type 0} {V : Type ℓ} ⦃o : Ord K⦄ where
  unfoldable pub get : K → Map K V → Option V
  get k [] = none
  get k ((j, v) ∷ m) = if j =? k then some v else get k m

  abbrev pub contains_key : K → Map K V → Bool
  contains_key k m = is_some (get k m)

  unfoldable pub insert : K → V → Map K V → Map K V
  insert k v [] = (k, v) ∷ []
  insert k v ((j, w) ∷ m) = elim (o.cmp k j) [
    | Ordering.lt ↦ (k, v) ∷ (j, w) ∷ m
    | Ordering.eq ↦ (k, v) ∷ m
    | Ordering.gt ↦ (j, w) ∷ insert k v m
  ]

  unfoldable pub remove : K → Map K V → Map K V
  remove k [] = []
  remove k ((j, w) ∷ m) = if j =? k then m else (j, w) ∷ remove k m

  abbrev pub Above : K → Map K V → Type 0
  Above k = All (λ e. o.cmp k e.0 ≡ Ordering.lt)

  abbrev pub IsSorted : Map K V → Type 0
  IsSorted [] = Unit {0}
  IsSorted ((j, w) ∷ m) = Above j m × IsSorted m

  Above-trans : (i j : K) (m : Map K V) → o.cmp i j ≡ Ordering.lt → Above j m → Above i m
  Above-trans i j [] h a = tt
  Above-trans i j ((k, v) ∷ m) h a = (o.cmp_trans i j k h a.0, Above-trans i j m h a.1)

  get-Above : (k : K) (m : Map K V) → Above k m → get k m ≡ none
  unfolding get
  get-Above k [] a = refl
  get-Above k ((j, v) ∷ m) a = rw (=?_of_lt k j a.0) (get-Above k m a.1)

  -- A read after a write.
  pub get-insert :
      (k j : K) (v : V) (m : Map K V) → get j (insert k v m) ≡ (if k =? j then some v else get j m)
  unfolding get insert
  get-insert k j v [] = refl
  get-insert k j v ((i, w) ∷ m) =
      ground (arith, get-insert k j v m, =?_iff k j, =?_iff i j, o.cmp_eq k i)

  Above-insert :
      (i k : K) (v : V) (m : Map K V) → o.cmp i k ≡ Ordering.lt → Above i m → Above i (insert k v m)
  unfolding insert
  Above-insert i k v [] h a = (h, tt)
  Above-insert i k v ((j, w) ∷ m) h a = ground (arith, Above-insert i k v m h a.1)

  pub IsSorted-insert : (k : K) (v : V) (m : Map K V) → IsSorted m → IsSorted (insert k v m)
  unfolding insert
  IsSorted-insert k v [] s = (tt, tt)
  IsSorted-insert k v ((j, w) ∷ m) s = ground (
    arith,
    IsSorted-insert k v m s.1,
    o.cmp_eq k j,
    o.cmp_gt k j,
    Above-trans k j m,
    Above-insert j k v m,
  )

  Above-remove : (i k : K) (m : Map K V) → Above i m → Above i (remove k m)
  unfolding remove
  Above-remove i k [] a = tt
  Above-remove i k ((j, w) ∷ m) a = ground (arith, Above-remove i k m a.1)

  pub IsSorted-remove : (k : K) (m : Map K V) → IsSorted m → IsSorted (remove k m)
  unfolding remove
  IsSorted-remove k [] s = tt
  IsSorted-remove k ((j, w) ∷ m) s = ground (arith, IsSorted-remove k m s.1, Above-remove j k m s.0)

  -- A read after a removal.
  pub get-remove :
      (k j : K) (m : Map K V) → IsSorted m → get j (remove k m) ≡ (if k =? j then none else get j m)
  unfolding get remove
  get-remove k j [] s = ground arith
  get-remove k j ((i, w) ∷ m) s =
      ground (arith, get-remove k j m s.1, =?_iff k j, =?_iff i j, =?_iff i k, get-Above i m s.0)

  -- The sum of a measure over the values.
  abbrev pub total : (V → ℕ) → Map K V → ℕ
  total f [] = 0
  total f ((j, w) ∷ m) = f w + total f m

  -- An insertion replaces what stood under its key.
  pub total-insert :
      (f : V → ℕ) (k : K) (v : V) (m : Map K V)
      → IsSorted m
      → total f (insert k v m) + map_or 0 f (get k m) ≡ total f m + f v
  unfolding get insert
  total-insert f k v [] s = omega arith
  total-insert f k v ((j, w) ∷ m) s = ground (
    arith,
    total-insert f k v m s.1,
    =?_iff j k,
    o.cmp_eq k j,
    o.cmp_gt k j,
    get-Above k m,
    Above-trans k j m,
  )

  pub total-remove :
      (f : V → ℕ) (k : K) (m : Map K V) → total f (remove k m) + map_or 0 f (get k m) ≡ total f m
  unfolding get remove
  total-remove f k [] = omega arith
  total-remove f k ((j, w) ∷ m) = ground (arith, total-remove f k m)

  pub length-insert :
      (k : K) (v : V) (m : Map K V)
      → IsSorted m
      → length (insert k v m) ≡ (if is_some (get k m) then length m else suc (length m))
  unfolding get insert
  length-insert k v [] s = refl
  length-insert k v ((j, w) ∷ m) s = ground (
    arith,
    length-insert k v m s.1,
    =?_iff j k,
    o.cmp_eq k j,
    o.cmp_gt k j,
    get-Above k m,
    Above-trans k j m,
  )

  pub length-remove-le : (k : K) (m : Map K V) → length (remove k m) ≤ length m
  unfolding remove
  length-remove-le k [] = omega arith
  length-remove-le k ((j, w) ∷ m) = ground (arith, length-remove-le k m)

  -- A predicate on the entries of a map.
  pub All-insert {κ} :
      (P : K → V → Type κ) (k : K) (v : V) (m : Map K V)
      → P k v
      → All (λ e. P e.0 e.1) m
      → All (λ e. P e.0 e.1) (insert k v m)
  unfolding insert
  All-insert P k v [] p h = (p, tt)
  All-insert P k v ((j, w) ∷ m) p h =
      elim (o.cmp k j)
        as (λ c.
          All (λ e. P e.0 e.1)
            (elim c [
              | Ordering.lt ↦ (k, v) ∷ (j, w) ∷ m
              | Ordering.eq ↦ (k, v) ∷ m
              | Ordering.gt ↦ (j, w) ∷ insert k v m
            ])) [
              | Ordering.lt ↦ (p, h)
              | Ordering.eq ↦ (p, h.1)
              | Ordering.gt ↦ (h.0, All-insert P k v m p h.1)
            ]

  pub All-remove {κ} :
      (P : K → V → Type κ) (k : K) (m : Map K V)
      → All (λ e. P e.0 e.1) m
      → All (λ e. P e.0 e.1) (remove k m)
  unfolding remove
  All-remove P k [] h = tt
  All-remove P k ((j, w) ∷ m) h = elim (Bool-cases (j =? k)) [
    | inl e ↦ rw e h.1
    | inr e ↦ rw e (h.0, All-remove P k m h.1)
  ]

  pub All-get {κ} :
      (P : K → V → Type κ) (k : K) (v : V) (m : Map K V)
      → All (λ e. P e.0 e.1) m
      → get k m ≡ some v
      → P k v
  unfolding get
  All-get P k v [] h g = absurd (cc)
  All-get P k v ((j, w) ∷ m) h g = elim (Bool-cases (j =? k)) [
    | inl e ↦
        let found : some w ≡ some v = rw e at g in
        let same : w ≡ v = cc found in
        subst (λ x. P x v) ((=?_iff j k).0 e) (subst (λ x. P j x) same h.0)
    | inr e ↦ All-get P k v m h.1 (rw e at g)
  ]
