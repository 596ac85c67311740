-- ===== src/Prelude/Optional.antt =====
-- The `?` operator in functions that return an `Option`, as `do` blocks.
use mathlib.Core.Path.{◌≡◌, refl}
use mathlib.Core.Bool.{Bool, true, false}
use mathlib.Core.Option.{Option, none, some}

infixl 5 ◌>>=◌ ◌>>◌
abbrev pub ◌>>=◌ {ℓ κ} : {A : Type ℓ} {B : Type κ} → Option A → (A → Option B) → Option B
none >>= rest = none
some value >>= rest = rest value

abbrev pub ◌>>◌ {ℓ} : {B : Type ℓ} → Option (Unit {0}) → Option B → Option B
first >> rest = first >>= λ _. rest

-- `if !b { return None }`
abbrev pub ensure : Bool → Option (Unit {0})
ensure true = some tt
ensure false = none

-- What a chain that returned a value has met, handed on as variables.
pub on_some {ℓ κ μ} :
    {A : Type ℓ} {B : Type κ} {P : Type μ} (first : Option A) (rest : A → Option B) {last : B}
    → (first >>= rest) ≡ some last
    → ((value : A) → first ≡ some value → rest value ≡ some last → P)
    → P
on_some none rest h then = absurd (cc)
on_some (some value) rest h then = then value refl h

pub on_ensure {ℓ μ} :
    {B : Type ℓ} {P : Type μ} (b : Bool) (rest : Option B) {last : B}
    → (ensure b >> rest) ≡ some last
    → (b ≡ true → rest ≡ some last → P)
    → P
on_ensure true rest h then = then refl h
on_ensure false rest h then = absurd (cc)

pub some-injective {ℓ} : {A : Type ℓ} {a b : A} → ◌≡◌ {A = Option A} (some a) (some b) → a ≡ b
some-injective h = cc h
