-- ===== src/Account/Limits.antt =====
-- `limit` of crates/psky/src/account.rs: how often something may be asked for.
use psky.Prelude.{
  ℕ, ◌-◌, ◌≤◌, ◌<◌, ◌≡◌, ◌↔◌, refl, inl, inr, Bool, Bool-cases, Result, ok, err, List, [], ◌∷◌,
  ◌++◌, arith, leb, ltb, length, length-append, select, length-select-le, if◌then◌else◌,
}
use psky.Account.Types.{Failure}
use psky.Account.Failures.{busy}

abbrev pub is_recent : ℕ → ℕ → ℕ → Bool
is_recent now window time = ltb (now - time) window

-- The list that is left, and whether there was room; `-` stops at 0 as `saturating_sub` does.
unfoldable pub limit : List ℕ → ℕ → ℕ → ℕ → List ℕ × Result Failure (Unit {0})
limit times now window capacity =
    let kept = select (is_recent now window) times in
    if leb capacity (length kept) then (kept, err busy) else (kept ++ now ∷ [], ok tt)

-- A request is let through exactly when fewer than the capacity are recent; then it is the last of the
-- list, which otherwise keeps the recent ones alone, and a list within the capacity stays within it.
pub limit_iff :
    (times : List ℕ) (now window capacity : ℕ)
    → (((limit times now window capacity).1 ≡ ok tt)
        ↔ (length (select (is_recent now window) times) < capacity))
      × ((limit times now window capacity).0 ≡ (
          if ltb (length (select (is_recent now window) times)) capacity
          then select (is_recent now window) times ++ now ∷ []
          else select (is_recent now window) times))
      × (length times ≤ capacity → length (limit times now window capacity).0 ≤ capacity)
unfolding limit
limit_iff times now window capacity =
    let kept = select (is_recent now window) times in
    elim (Bool-cases (leb capacity (length kept))) [
      | inl full ↦ rw full (
        (λ h. absurd (cc), λ h. absurd (ground (arith, full, h))),
        ground (arith, full),
        λ h. omega (arith, h, length-select-le (is_recent now window) times),
      )
      | inr room ↦ rw room (
        (λ h. ground (arith, room), λ h. refl),
        ground (arith, room),
        λ h. ground (arith, room, length-append kept (now ∷ [])),
      )
    ]
