-- ===== src/Repo/Car/Varint.antt =====
-- The variable-length numbers of an export are read back.
use Prim.Native.Nat.{bit_and, bit_or}
use mathlib.Core.List.{append_assoc, append-nil}
use psky.Prelude.Tables.{all_below, all_below_sound}
use psky.Prelude.{
  ℕ, zero, suc, ◌+◌, ◌-◌, ◌*◌, ◌/◌, ◌%◌, ◌<◌, ◌≡◌, refl, sym, ap, ◌∙◌, inl, inr, true, Option, none,
  some, Bytes, arith, [], ◌∷◌, ◌++◌, leb, ltb, ◌==◌, ==_iff, if◌then◌else◌, Bool-cases,
}
use psky.Repo.Car.{continued, varint, varint_loop}

continued_table : all_below 256 (λ x. bit_or (bit_and x 0x7f) 0x80 == x % 128 + 128) ≡ true
unfolding all_below
continued_table = refl

continued-eq : (n : ℕ) → continued n ≡ n % 128 + 128
unfolding continued
continued-eq n = omega (
  arith,
  (==_iff _ _).0 (
      all_below_sound 256 (λ x. bit_or (bit_and x 0x7f) 0x80 == x % 128 + 128) (n % 256)
        continued_table (omega arith)),
)

-- The reader that the format prescribes: seven bits a byte, the lowest first, and the high bit set on
-- all bytes but the last.
unfoldable pub read_varint : Bytes → Option (ℕ × Bytes)
read_varint [] = none
read_varint (b ∷ rest) =
    let more : Option (ℕ × Bytes) = elim (read_varint rest) [
      | none ↦ none
      | some (n, left) ↦ some (b - 128 + 128 * n, left)
    ] in
    if ltb b 128 then some (b, rest) else more

-- What the loop appends.
abbrev groups : ℕ → ℕ → Bytes
groups fuel n = varint_loop fuel n []

pub varint_loop-append : (fuel n : ℕ) (out : Bytes) → varint_loop fuel n out ≡ out ++ groups fuel n
unfolding varint_loop
varint_loop-append zero n out = sym (append-nil out)
varint_loop-append (suc fuel) n out = elim (Bool-cases (leb 128 n)) [
  | inl more ↦ rw more (
      varint_loop-append fuel (n / 128) (out ++ continued n ∷ [])
      ∙ append_assoc out (continued n ∷ []) (groups fuel (n / 128))
      ∙ ap (◌++◌ out) (sym (varint_loop-append fuel (n / 128) (continued n ∷ []))))
  | inr last ↦ rw last
]

read_varint-groups :
    (fuel n : ℕ) (rest : Bytes) → n < fuel → read_varint (groups fuel n ++ rest) ≡ some (n, rest)
unfolding read_varint varint_loop
read_varint-groups zero n rest h = absurd (omega arith)
read_varint-groups (suc fuel) n rest h = elim (Bool-cases (leb 128 n)) [
  | inl more ↦
      rw (more, varint_loop-append fuel (n / 128) (continued n ∷ []))
        (ground (arith, more, continued-eq n, read_varint-groups fuel (n / 128) rest))
  | inr last ↦ rw last (ground (arith, last))
]

pub varint-append : (n : ℕ) (out : Bytes) → varint n out ≡ out ++ varint n []
unfolding varint
varint-append n out = varint_loop-append (suc n) n out

-- `varint` appends a number that is read back, whatever stands before it and behind it; so its rounds
-- are enough.
pub read_varint-varint :
    (n : ℕ) (out rest : Bytes)
    → (code : Bytes) × (varint n out ≡ out ++ code) × (read_varint (code ++ rest) ≡ some (n, rest))
unfolding varint
read_varint-varint n out rest = (
  groups (suc n) n,
  varint_loop-append (suc n) n out,
  read_varint-groups (suc n) n rest (omega arith),
)

pub read_varint-empty : (n : ℕ) (rest : Bytes) → read_varint (varint n [] ++ rest) ≡ some (n, rest)
unfolding varint
read_varint-empty n rest = read_varint-groups (suc n) n rest (omega arith)

pub varint-cons : (n : ℕ) → (b : ℕ) × (s : Bytes) × (varint n [] ≡ b ∷ s)
unfolding varint
varint-cons n = elim (Bool-cases (leb 128 n)) [
  | inl more ↦
      (continued n, groups n (n / 128), rw more (varint_loop-append n (n / 128) (continued n ∷ [])))
  | inr last ↦ (n % 256, [], rw last)
]
