-- ===== src/Prelude/Tables.antt =====
-- Facts about a small range, checked value by value.
use psky.Prelude.{ℕ, zero, suc, ◌<◌, ◌≡◌, Bool, true, ◌&&◌, arith}

unfoldable pub all_below : ℕ → (ℕ → Bool) → Bool
all_below zero holds = true
all_below (suc bound) holds = holds bound && all_below bound holds

pub all_below_sound :
    (bound : ℕ) (holds : ℕ → Bool) (i : ℕ)
    → all_below bound holds ≡ true
    → i < bound
    → holds i ≡ true
unfolding all_below
all_below_sound zero holds i checked within = absurd (omega arith)
all_below_sound (suc bound) holds i checked within = ground (arith, all_below_sound bound holds i)
