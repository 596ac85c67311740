-- ===== src/Prelude/Distinct.antt =====
-- Lists in which no two elements share a key, as the loops build them.
use psky.Prelude.{
  ◌≡◌, ◌≢◌, Bool, false, Bool-cases, inl, inr, List, [], ◌∷◌, ◌++◌, sym, true, All, any, all,
  and_true, map, ◌∙◌,
}

module _ {ℓ κ μ} {A : Type ℓ} {P : A → Type κ} {Q : A → Type μ} where
  pub All-map : (step : (x : A) → P x → Q x) (xs : List A) → All P xs → All Q xs
  All-map step [] h = tt
  All-map step (x ∷ xs) h = (step x h.0, All-map step xs h.1)

module _ {ℓ κ μ ν} {A : Type ℓ} {P : A → Type κ} {Q : A → Type μ} {R : A → Type ν} where
  pub All-zip : (step : (x : A) → P x → Q x → R x) (xs : List A) → All P xs → All Q xs → All R xs
  All-zip step [] h k = tt
  All-zip step (x ∷ xs) h k = (step x h.0 k.0, All-zip step xs h.1 k.1)

module _ {ℓ} {A : Type ℓ} where
  pub All-of_any : (p : A → Bool) (xs : List A) → any p xs ≡ false → All (λ x. p x ≡ false) xs
  All-of_any p [] h = tt
  All-of_any p (x ∷ xs) h = elim (Bool-cases (p x)) [
    | inl e ↦ absurd (cc)
    | inr e ↦ (e, All-of_any p xs (rw e at h))
  ]

module _ {ℓ} {A : Type ℓ} {K : Type 0} (key : A → K) where
  abbrev pub Distinct : List A → Type 0
  Distinct [] = Unit {0}
  Distinct (x ∷ xs) = All (λ y. key x ≢ key y) xs × Distinct xs

  pub Distinct-snoc :
      (xs : List A) (x : A) → All (λ y. key y ≢ key x) xs → Distinct xs → Distinct (xs ++ x ∷ [])
  Distinct-snoc [] x apart h = (tt, tt)
  Distinct-snoc (y ∷ xs) x apart h = (snoc xs h.0, Distinct-snoc xs x apart.1 h.1)
    where
      snoc : (zs : List A) → All (λ z. key y ≢ key z) zs → All (λ z. key y ≢ key z) (zs ++ x ∷ [])
      snoc [] k = (apart.0, tt)
      snoc (z ∷ zs) k = (k.0, snoc zs k.1)

  -- Changes that keep the keys keep them distinct.
  pub Distinct-map :
      (change : A → A) (xs : List A)
      → ((x : A) → key (change x) ≡ key x)
      → Distinct xs
      → Distinct (map change xs)
  Distinct-map change [] same h = tt
  Distinct-map change (x ∷ xs) same h = (apart xs h.0, Distinct-map change xs same h.1)
    where
      apart :
          (ys : List A)
          → All (λ y. key x ≢ key y) ys
          → All (λ y. key (change x) ≢ key y) (map change ys)
      apart [] k = tt
      apart (y ∷ ys) k = (λ e. k.0 (sym (same x) ∙ e ∙ same y), apart ys k.1)

module _ {ℓ κ μ} {A : Type ℓ} {B : Type κ} (P : B → Type μ) (f : A → B) where
  pub All-mapped : (xs : List A) → All (λ x. P (f x)) xs → All P (map f xs)
  All-mapped [] h = tt
  All-mapped (x ∷ xs) h = (h.0, All-mapped xs h.1)

module _ {ℓ κ} {A : Type ℓ} (P : A → Type κ) where
  pub All-of_every : (every : (x : A) → P x) (xs : List A) → All P xs
  All-of_every every [] = tt
  All-of_every every (x ∷ xs) = (every x, All-of_every every xs)

module _ {ℓ} {A : Type ℓ} (p : A → Bool) where
  pub All-of_all : (xs : List A) → all p xs ≡ true → All (λ x. p x ≡ true) xs
  All-of_all [] h = tt
  All-of_all (x ∷ xs) h =
      let (here, there) = and_true (p x) (all p xs) h in (here, All-of_all xs there)
