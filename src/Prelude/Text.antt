-- ===== src/Prelude/Text.antt =====
-- The parts of Rust's `str` and `u8` that the program uses, on byte strings.
pub mod Separators
pub mod Radix
use Prim.Native.Nat.{ℕ, zero, suc, ◌+◌, ◌-◌, ◌*◌, ◌/◌, ◌%◌}
use Prim.Native.Char.{code}
use Prim.Native.String.{String}
use mathlib.Core.Path.{◌≡◌}
use mathlib.Core.Bool.{Bool, true, false, ◌&&◌, ◌||◌}
use mathlib.Core.Option.{Option, none, some}
use mathlib.Core.List.{List, [], ◌∷◌, ◌++◌}
use native.Mathlib.Omega.{arith}
use psky.Prelude.Tests.{if◌then◌else◌, leb, ◌==◌, ==_iff}
use psky.Prelude.Lists.{length, any}
use psky.Prelude.Order.{Bytes, ◌=?◌, bytes_ord}

-- A byte-string literal.
abbrev pub codes : String → Bytes
codes String.[] = []
codes (String.◌∷◌ c s) = code c ∷ codes s

unfoldable pub is_ascii_lowercase : ℕ → Bool
is_ascii_lowercase c = leb b'a' c && leb c b'z'

unfoldable pub is_ascii_uppercase : ℕ → Bool
is_ascii_uppercase c = leb b'A' c && leb c b'Z'

unfoldable pub is_ascii_digit : ℕ → Bool
is_ascii_digit c = leb b'0' c && leb c b'9'

unfoldable pub is_ascii_alphabetic : ℕ → Bool
unfolding is_ascii_lowercase is_ascii_uppercase
is_ascii_alphabetic c = is_ascii_lowercase c || is_ascii_uppercase c

unfoldable pub is_ascii_alphanumeric : ℕ → Bool
unfolding is_ascii_alphabetic is_ascii_digit
is_ascii_alphanumeric c = is_ascii_alphabetic c || is_ascii_digit c

unfoldable pub is_ascii_hexdigit : ℕ → Bool
unfolding is_ascii_digit
is_ascii_hexdigit c = is_ascii_digit c || leb b'a' c && leb c b'f' || leb b'A' c && leb c b'F'

-- `slice.contains(&c)` on bytes.
abbrev pub one_of : Bytes → ℕ → Bool
one_of s c = any (λ x. x == c) s

-- `str::contains(char)`
abbrev pub has_byte : ℕ → Bytes → Bool
has_byte c s = any (λ x. x == c) s

unfoldable pub split_once : ℕ → Bytes → Option (Bytes × Bytes)
split_once c [] = none
split_once c (x ∷ s) =
    let later : Option (Bytes × Bytes) = elim (split_once c s) [
      | none ↦ none
      | some (a, b) ↦ some (x ∷ a, b)
    ] in
    if x == c then some ([], s) else later

unfoldable pub rsplit_once : ℕ → Bytes → Option (Bytes × Bytes)
rsplit_once c [] = none
rsplit_once c (x ∷ s) = elim (rsplit_once c s) [
  | some (a, b) ↦ some (x ∷ a, b)
  | none ↦ if x == c then some ([], s) else none
]

abbrev push_front : ℕ → List Bytes → List Bytes
push_front x [] = (x ∷ []) ∷ []
push_front x (s ∷ rest) = (x ∷ s) ∷ rest

-- `str::split`: one part more than there are separators.
unfoldable pub split : ℕ → Bytes → List Bytes
split c [] = [] ∷ []
split c (x ∷ s) = let rest = split c s in if x == c then [] ∷ rest else push_front x rest

-- The last part, as `rsplit(c).next()`.
unfoldable pub last_part : List Bytes → Bytes
last_part [] = []
last_part (s ∷ []) = s
last_part (s ∷ t ∷ rest) = last_part (t ∷ rest)

unfoldable pub strip_prefix : Bytes → Bytes → Option Bytes
strip_prefix [] s = some s
strip_prefix (p ∷ ps) [] = none
strip_prefix (p ∷ ps) (x ∷ s) = if p == x then strip_prefix ps s else none

abbrev pub starts_with : Bytes → Bytes → Bool
starts_with p s = elim (strip_prefix p s) [ none ↦ false | some _ ↦ true ]

-- `str::ends_with`: some tail of the text is the suffix.
unfoldable pub ends_with : Bytes → Bytes → Bool
ends_with p [] = p =? []
ends_with p (x ∷ s) = p =? (x ∷ s) || ends_with p s

-- `as_bytes()[0]` tested, where the text is known not to be empty; `first().is_some_and` otherwise.
abbrev pub first_is : (ℕ → Bool) → Bytes → Bool
first_is p [] = false
first_is p (x ∷ s) = p x

-- `u64::to_string`: a digit for each round, and a number below `10 ^ k` takes `k` rounds at most.
unfoldable pub decimal_from : ℕ → ℕ → Bytes → Bytes
decimal_from zero n tail = tail
decimal_from (suc fuel) n tail =
    let digit = b'0' + n % 10 in
    let more = decimal_from fuel (n / 10) (digit ∷ tail) in if leb 10 n then more else digit ∷ tail

unfoldable pub decimal : ℕ → Bytes
unfolding decimal_from
decimal n = decimal_from (suc n) n []

-- The value of a run of digits.
unfoldable pub digits_value : ℕ → Bytes → Option ℕ
unfolding is_ascii_digit
digits_value n [] = some n
digits_value n (c ∷ s) = if is_ascii_digit c then digits_value (n * 10 + (c - b'0')) s else none

-- `str::parse` to an unsigned type with the given greatest value: one leading `+` is allowed.
unfoldable pub parse_unsigned : ℕ → Bytes → Option ℕ
unfolding digits_value
parse_unsigned greatest [] = none
parse_unsigned greatest (c ∷ s) =
    let body : Bytes = if c == b'+' then s else c ∷ s in
    if length body == 0 then none else elim (digits_value 0 body) [
      | none ↦ none
      | some n ↦ if leb n greatest then some n else none
    ]

-- What `split_once` finds is the text around the first separator.
pub split_once-append :
    (c : ℕ) (a b : Bytes) → has_byte c a ≡ false → split_once c (a ++ c ∷ b) ≡ some (a, b)
unfolding split_once
split_once-append c [] b h = ground arith
split_once-append c (x ∷ a) b h = ground (arith, split_once-append c a b)

pub split_once_sound :
    (c : ℕ) (s a b : Bytes)
    → split_once c s ≡ some (a, b)
    → (s ≡ a ++ c ∷ b) × (has_byte c a ≡ false)
unfolding split_once
split_once_sound c [] a b h = absurd (cc)
split_once_sound c (x ∷ s) [] b h = ground (arith, ==_iff x c)
split_once_sound c (x ∷ s) (y ∷ a) b h = ground (arith, split_once_sound c s a b)
