-- ===== src/Prelude/Text/Radix.antt =====
-- `u64::from_str_radix` and `str::parse::<u64>`.
use psky.Prelude.{
  ℕ, ◌+◌, ◌-◌, ◌*◌, ◌^◌, ◌<◌, ◌≡◌, Bool-cases, inl, inr, ◌&&◌, Option, none, some, Bytes, [], ◌∷◌,
  leb, ltb, ltb→lt, ◌==◌, if◌then◌else◌, arith,
}
use psky.Prelude.Optional.{◌>>=◌, ◌>>◌, ensure, on_some, on_ensure, some-injective}

-- `char::to_digit`
unfoldable pub to_digit : ℕ → ℕ → Option ℕ
to_digit radix c =
    let value =
      if leb b'0' c && leb c b'9'
      then c - b'0'
      else if leb b'a' c && leb c b'z'
      then c - b'a' + 10
      else if leb b'A' c && leb c b'Z'
      then c - b'A' + 10
      else 36 in
    if ltb value radix then some value else none

-- The loop: each round multiplies and adds, and refuses what exceeds 64 bits.
unfoldable pub read_digits : ℕ → ℕ → Bytes → Option ℕ
unfolding to_digit
read_digits radix before [] = some before
read_digits radix before (c ∷ s) = do
  digit ← to_digit radix c
  ensure (ltb (before * radix + digit) (2 ^ 64))
  read_digits radix (before * radix + digit) s

-- A sign `+` is accepted before the digits.
unfoldable pub from_str_radix : ℕ → Bytes → Option ℕ
unfolding read_digits
from_str_radix radix [] = none
from_str_radix radix (c ∷ []) = read_digits radix 0 (c ∷ [])
from_str_radix radix (c ∷ d ∷ s) =
    if c == b'+' then read_digits radix 0 (d ∷ s) else read_digits radix 0 (c ∷ d ∷ s)

read_digits-fits :
    (radix before n : ℕ) (s : Bytes)
    → before < 2 ^ 64
    → read_digits radix before s ≡ some n
    → n < 2 ^ 64
unfolding read_digits
read_digits-fits radix before n [] small h = ground (arith, some-injective h)
read_digits-fits radix before n (c ∷ s) small h = on_some (to_digit radix c) _ h λ digit _ h.
    on_ensure (ltb (before * radix + digit) (2 ^ 64)) _ h λ fits h.
      read_digits-fits radix (before * radix + digit) n s
        (ltb→lt (before * radix + digit) (2 ^ 64) fits) h

-- What was read fits 64 bits.
pub from_str_radix-fits : (radix n : ℕ) (s : Bytes) → from_str_radix radix s ≡ some n → n < 2 ^ 64
unfolding from_str_radix
from_str_radix-fits radix n [] h = absurd (cc)
from_str_radix-fits radix n (c ∷ []) h = read_digits-fits radix 0 n (c ∷ []) (omega arith) h
from_str_radix-fits radix n (c ∷ d ∷ s) h = elim (Bool-cases (c == b'+')) [
  | inl e ↦ read_digits-fits radix 0 n (d ∷ s) (omega arith) (rw e at h)
  | inr e ↦ read_digits-fits radix 0 n (c ∷ d ∷ s) (omega arith) (rw e at h)
]
