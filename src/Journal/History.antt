-- ===== src/Journal/History.antt =====
-- The journal against the full history of its process: it keeps the last `log_capacity` events.
use Prim.Native.String.{String}
use psky.Prelude.{
  ℕ, zero, suc, ◌+◌, ◌-◌, ◌≤◌, ◌≡◌, refl, sym, ap, ◌∙◌, inl, inr, List, [], ◌∷◌, ◌++◌, arith,
  length, length-append, drop, ◌==◌, ==_iff, Bool-cases, if◌then◌else◌,
}
use mathlib.Core.Path.{ap₂, subst}
use mathlib.Core.List.{append-nil, append_assoc}
use psky.Journal.{Event, Journal, empty, push, pop_front, log_capacity}

-- What a call of `push` is given, the clock's reading included.
pub record Report : Type 0 where
  pub now : ℕ
  pub level : String
  pub event : String
  pub message : String

abbrev number_event : ℕ → Report → Event
number_event n r = record {
  sequence = n;
  timestamp = r.now;
  level = r.level;
  event = r.event;
  message = r.message;
}

-- All the events, numbered from `n + 1`.
abbrev pub history : ℕ → List Report → List Event
history n [] = []
history n (r ∷ rs) = number_event (n + 1) r ∷ history (n + 1) rs

unfoldable pub push_all : Journal → List Report → Journal
push_all j [] = j
push_all j (r ∷ rs) = push_all (push j r.now r.level r.event r.message) rs

pub length-history : (n : ℕ) (rs : List Report) → length (history n rs) ≡ length rs
length-history n [] = refl
length-history n (r ∷ rs) = ap suc (length-history (n + 1) rs)

-- The journal after a history that has numbered its events up to the journal's sequence number.
pub record Keeps (all : List Event) (j : Journal) : Type 0 where
  pub counted : j.sequence ≡ length all
  pub kept : j.entries ≡ drop (length all - log_capacity) all

pop_front-drop : (n : ℕ) (xs : List Event) → pop_front (drop n xs) ≡ drop (suc n) xs
unfolding pop_front
pop_front-drop zero [] = refl
pop_front-drop zero (x ∷ xs) = refl
pop_front-drop (suc n) [] = refl
pop_front-drop (suc n) (x ∷ xs) = pop_front-drop n xs

pub length-drop : (n : ℕ) (xs : List Event) → length (drop n xs) ≡ length xs - n
length-drop zero xs = omega arith
length-drop (suc n) [] = omega arith
length-drop (suc n) (x ∷ xs) = omega (arith, length-drop n xs)

drop-append : (n : ℕ) (xs ys : List Event) → n ≤ length xs → drop n (xs ++ ys) ≡ drop n xs ++ ys
drop-append zero xs ys h = refl
drop-append (suc n) [] ys h = absurd (omega arith)
drop-append (suc n) (x ∷ xs) ys h = drop-append n xs ys (omega arith)

-- A full journal gives up its oldest event.
kept-drop :
    (all es : List Event)
    → es ≡ drop (length all - log_capacity) all
    → (if length es == log_capacity then pop_front es else es)
      ≡ drop (length all + 1 - log_capacity) all
kept-drop all es e = elim (Bool-cases (length es == log_capacity)) [
  | inl full ↦
      let same : length all + 1 - log_capacity ≡ suc (length all - log_capacity) =
        omega (arith, size, (==_iff (length es) log_capacity).0 full) in
      rw (full, same) (ap pop_front e ∙ pop_front-drop (length all - log_capacity) all)
  | inr room ↦
      let same : length all + 1 - log_capacity ≡ length all - log_capacity =
        ground (arith, size, room) in
      rw (room, same) e
]
  where
    size : length es ≡ length all - (length all - log_capacity)
    size = ap length e ∙ length-drop (length all - log_capacity) all

push-Keeps :
    (all : List Event) (j : Journal) (r : Report)
    → Keeps all j
    → Keeps (all ++ number_event (length all + 1) r ∷ []) (push j r.now r.level r.event r.message)
unfolding push
push-Keeps all j r k = record {
  counted = omega (arith, k.counted, size);
  kept = rw size (
      ap₂ (λ (es : List Event) (n : ℕ). es ++ number_event (n + 1) r ∷ [])
        (kept-drop all j.entries k.kept) k.counted
      ∙ sym (drop-append (length all + 1 - log_capacity) all _ (omega arith)));
}
  where
    size : length (all ++ number_event (length all + 1) r ∷ []) ≡ length all + 1
    size = omega (arith, length-append all (number_event (length all + 1) r ∷ []))

push_all-Keeps :
    (all : List Event) (j : Journal) (rs : List Report)
    → Keeps all j
    → Keeps (all ++ history (length all) rs) (push_all j rs)
unfolding push_all
push_all-Keeps all j [] k = rw (append-nil all) k
push_all-Keeps all j (r ∷ rs) k =
    let e = number_event (length all + 1) r in
    let size : length (all ++ e ∷ []) ≡ length all + 1 =
      omega (arith, length-append all (e ∷ [])) in
    let rest =
      push_all-Keeps (all ++ e ∷ []) (push j r.now r.level r.event r.message) rs
        (push-Keeps all j r k) in
    let whole : (all ++ e ∷ []) ++ history (length (all ++ e ∷ [])) rs
        ≡ all ++ history (length all) (r ∷ rs) =
      append_assoc all (e ∷ []) _ ∙ ap (λ n. all ++ e ∷ history n rs) size in
    subst (λ es. Keeps es (push_all (push j r.now r.level r.event r.message) rs)) whole rest

-- After any reports the journal holds the last `log_capacity` of them, in order, numbered from 1 by
-- their place in the whole history, and its sequence number is their count.
pub push_all-history :
    (rs : List Report)
    → ((push_all empty rs).entries ≡ drop (length rs - log_capacity) (history 0 rs))
      × ((push_all empty rs).sequence ≡ length rs)
push_all-history rs =
    let k = push_all-Keeps [] empty rs (record { counted = refl; kept = refl }) in
    (rw (← length-history 0 rs) k.kept, k.counted ∙ length-history 0 rs)
