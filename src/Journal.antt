-- ===== src/Journal.antt =====
-- crates/psky/src/journal.rs: the bounded ring of diagnostic events and its pages. A sequence number
-- is a `u64` that counts the events of one process, and is taken to stay below its bound.
pub mod History
pub mod Pages
use Prim.Native.String.{String}
use psky.Prelude.{
  ℕ, suc, ◌+◌, ◌-◌, min, Bool, Option, none, some, map_or, List, [], ◌∷◌, ◌++◌, length, take,
  select, ltb, ◌==◌, if◌then◌else◌,
}

abbrev pub log_capacity : ℕ
log_capacity = 200

pub record Event : Type 0 where
  pub sequence : ℕ
  pub timestamp : ℕ
  pub level : String
  pub event : String
  pub message : String

pub record LogPage : Type 0 where
  pub entries : List Event
  pub next_cursor : ℕ
  pub dropped_before : ℕ
  pub truncated : Bool

pub record Journal : Type 0 where
  pub entries : List Event
  pub sequence : ℕ

-- `Journal::default`
abbrev pub empty : Journal
empty = record { entries = []; sequence = 0 }

-- `pop_front`
unfoldable pub pop_front : List Event → List Event
pop_front [] = []
pop_front (e ∷ es) = es

unfoldable pub front : List Event → Option Event
front [] = none
front (e ∷ es) = some e

unfoldable pub last : List Event → Option Event
last [] = none
last (e ∷ []) = some e
last (e ∷ f ∷ es) = last (f ∷ es)

-- The clock's reading is an argument.
unfoldable pub push : Journal → ℕ → String → String → String → Journal
unfolding pop_front
push j now level event message =
    let sequence = j.sequence + 1 in
    let kept = if length j.entries == log_capacity then pop_front j.entries else j.entries in
    record {
      entries =
          kept
          ++ record {
            sequence = sequence;
            timestamp = now;
            level = level;
            event = event;
            message = message;
          }
            ∷ [];
      sequence = sequence;
    }

unfoldable pub page : Journal → ℕ → ℕ → LogPage
unfolding front last
page j after limit =
    let dropped = map_or 0 (λ (e : Event). e.sequence - 1) (front j.entries) in
    let entries = take (min limit log_capacity) (select (λ e. ltb after e.sequence) j.entries) in
    record {
      entries = entries;
      next_cursor = map_or j.sequence (λ (e : Event). e.sequence) (last entries);
      dropped_before = dropped;
      truncated = ltb after dropped;
    }

unfoldable pub last_sequence : Journal → ℕ
last_sequence j = j.sequence
