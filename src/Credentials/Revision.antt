-- ===== src/Credentials/Revision.antt =====
-- `revision` of crates/psky-credentials/src/lib.rs: a revision as thirteen base-32 digits.
pub mod Order
use psky.Prelude.{
  ℕ, zero, suc, ◌+◌, ◌-◌, ◌*◌, ◌/◌, ◌%◌, ◌^◌, min, Bytes, List, [], ◌∷◌, if◌then◌else◌, ltb,
}
use psky.Repo.Syntax.{tid_alphabet}

-- `u64::saturating_mul`
unfoldable pub saturating_mul : ℕ → ℕ → ℕ
saturating_mul a b = min (a * b) (2 ^ 64 - 1)

unfoldable pub byte_at : ℕ → Bytes → ℕ
byte_at n [] = 0
byte_at zero (c ∷ s) = c
byte_at (suc n) (c ∷ s) = byte_at n s

-- `ALPHABET[(value & 31) as usize]`
unfoldable pub digit : ℕ → ℕ
unfolding byte_at
digit value = byte_at (value % 32) tid_alphabet

-- The loop over `result.iter_mut().rev()`: it fills the places from the right, so that each round puts
-- a digit before those that it has written.
unfoldable pub fill : ℕ → ℕ → Bytes → Bytes
fill zero value written = written
fill (suc places) value written = fill places (value / 32) (digit value ∷ written)

unfoldable pub revision : ℕ → Bytes
unfolding saturating_mul fill digit
revision seconds = fill 13 (saturating_mul (saturating_mul seconds 1_000_000) 1024) []
