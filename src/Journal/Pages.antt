-- ===== src/Journal/Pages.antt =====
-- Reading the journal page by page.
use psky.Prelude.{
  ℕ, ◌⊎◌, zero, suc, ◌+◌, ◌-◌, ◌≤◌, ◌<◌, ◌≡◌, refl, sym, ap, ◌∙◌, inl, inr, map_or, List, [], ◌∷◌,
  ◌++◌, arith, length, drop, take, select, ltb, min, length-take-le, Bool-cases,
}
use mathlib.Core.Path.{subst}
use native.Mathlib.Nat.{suc-add}
use psky.Journal.{Event, Journal, page, last, front, empty, log_capacity}
use psky.Journal.History.{Report, push_all, history, push_all-history, length-drop, length-history}

-- Events numbered from `n + 1` on, with no gap.
abbrev pub AreNumbered : ℕ → List Event → Type 0
AreNumbered n [] = Unit {0}
AreNumbered n (e ∷ es) = (e.sequence ≡ n + 1) × AreNumbered (n + 1) es

drop-nil : (d : ℕ) → drop d (let es : List Event = [] in es) ≡ []
drop-nil zero = refl
drop-nil (suc d) = refl

drop-AreNumbered :
    (d n m : ℕ) (es : List Event)
    → m ≡ n + d
    → d ≤ length es
    → AreNumbered n es
    → AreNumbered m (drop d es)
drop-AreNumbered zero n m es e h a = subst (λ k. AreNumbered k es) (omega (arith, e)) a
drop-AreNumbered (suc d) n m [] e h a = absurd (omega arith)
drop-AreNumbered (suc d) n m (x ∷ es) e h a =
    drop-AreNumbered d (n + 1) m es (omega arith) (omega arith) a.1

take-AreNumbered : (k n : ℕ) (es : List Event) → AreNumbered n es → AreNumbered n (take k es)
take-AreNumbered zero n es a = tt
take-AreNumbered (suc k) n [] a = tt
take-AreNumbered (suc k) n (e ∷ es) a = (a.0, take-AreNumbered k (n + 1) es a.1)

-- The events past a cursor are a tail of the journal.
select-drop :
    (after n : ℕ) (es : List Event)
    → AreNumbered n es
    → select (λ e. ltb after e.sequence) es ≡ drop (after - n) es
select-drop after n [] a = sym (drop-nil (after - n))
select-drop after n (e ∷ es) a = elim (Bool-cases (ltb after e.sequence)) [
  | inl past ↦
      let here : after - n ≡ 0 = ground (arith, past, a.0) in
      let rest : after - (n + 1) ≡ 0 = omega (arith, here) in
      rw (past, here)
        (ap (λ xs. e ∷ xs) (select-drop after (n + 1) es a.1 ∙ ap (λ k. drop k es) rest))
  | inr seen ↦
      let here : after - n ≡ suc (after - (n + 1)) = ground (arith, seen, a.0) in
      rw (seen, here) (select-drop after (n + 1) es a.1)
]

last-AreNumbered :
    (other n : ℕ) (e : Event) (es : List Event)
    → AreNumbered n (e ∷ es)
    → map_or other (λ (x : Event). x.sequence) (last (e ∷ es)) ≡ n + length (e ∷ es)
unfolding last
last-AreNumbered other n e [] a = omega arith
last-AreNumbered other n e (f ∷ es) a = omega (arith, last-AreNumbered other (n + 1) f es a.1)

drop-drop : (k d : ℕ) (es : List Event) → drop k (drop d es) ≡ drop (d + k) es
drop-drop k zero es = ap (λ n. drop n es) (omega arith)
drop-drop k (suc d) [] = rw (suc-add) (drop-nil k)
drop-drop k (suc d) (e ∷ es) = rw (suc-add) (drop-drop k d es)

take_then_drop : (k : ℕ) (es : List Event) → take k es ++ drop (length (take k es)) es ≡ es
take_then_drop zero es = refl
take_then_drop (suc k) [] = refl
take_then_drop (suc k) (e ∷ es) = ap (λ xs. e ∷ xs) (take_then_drop k es)

-- The events kept are numbered without a gap up to the sequence number.
pub record IsValid (j : Journal) : Type 0 where
  pub dropped : ℕ
  pub numbered : AreNumbered dropped j.entries
  pub counted : j.sequence ≡ dropped + length j.entries
  pub bounded : length j.entries ≤ log_capacity
  pub fresh : j.entries ≡ [] → dropped ≡ 0

history-AreNumbered : (n : ℕ) (rs : List Report) → AreNumbered n (history n rs)
history-AreNumbered n [] = tt
history-AreNumbered n (r ∷ rs) = (refl, history-AreNumbered (n + 1) rs)

-- A journal that was filled by `push` alone is valid: it keeps at most `log_capacity` events, numbered
-- without a gap up to its sequence number.
pub push_all-IsValid : (rs : List Report) → IsValid (push_all empty rs)
push_all-IsValid rs =
    let (kept, counted) = push_all-history rs in
    let lost = length rs - log_capacity in
    let size : length (push_all empty rs).entries ≡ length rs - lost =
      ap length kept ∙ length-drop lost (history 0 rs) ∙ ap (λ n. n - lost) (length-history 0 rs) in
    record {
      dropped = lost;
      numbered = subst (AreNumbered lost) (sym kept) (
          drop-AreNumbered lost 0 lost (history 0 rs) (omega arith)
            (omega (arith, length-history 0 rs)) (history-AreNumbered 0 rs));
      counted = omega (arith, counted, size);
      bounded = omega (arith, size);
      fresh = λ e. omega (arith, size, ap length e);
    }

list-cases : (es : List Event) → (es ≡ []) ⊎ ((e : Event) × (rest : List Event) × (es ≡ e ∷ rest))
list-cases [] = inl refl
list-cases (e ∷ rest) = inr (e, rest, refl)

take-nil : (k : ℕ) (es : List Event) → 0 < k → take k es ≡ [] → es ≡ []
take-nil zero es h e = absurd (omega arith)
take-nil (suc k) [] h e = refl
take-nil (suc k) (x ∷ es) h e = absurd (cc)

drop-length : (es : List Event) → drop (length es) es ≡ []
drop-length [] = refl
drop-length (e ∷ es) = drop-length es

reach :
    (k d : ℕ) (es : List Event) (e : Event) (rest : List Event)
    → take k (drop d es) ≡ e ∷ rest
    → d ≤ length es
reach k zero es e rest h = omega arith
reach zero (suc d) es e rest h = absurd (cc)
reach (suc k) (suc d) [] e rest h = absurd (cc)
reach (suc k) (suc d) (x ∷ es) e rest h = omega (arith, reach (suc k) d es e rest h)

module _ (j : Journal) (v : IsValid j) (after limit : ℕ) where
  page-entries :
      (page j after limit).entries
      ≡ take (min limit log_capacity) (drop (after - v.dropped) j.entries)
  unfolding page
  page-entries =
      ap (take (min limit log_capacity)) (select-drop after v.dropped j.entries v.numbered)

  -- The cursor of a page that is not empty is the number of its last event.
  page-next_cursor :
      (e : Event) (rest : List Event)
      → (page j after limit).entries ≡ e ∷ rest
      → (page j after limit).next_cursor
        ≡ v.dropped + (after - v.dropped) + length (page j after limit).entries
  unfolding page
  page-next_cursor e rest h =
      let shape = sym page-entries ∙ h in
      let within = reach (min limit log_capacity) (after - v.dropped) j.entries e rest shape in
      let numbered =
        take-AreNumbered (min limit log_capacity) (v.dropped + (after - v.dropped)) _
          (drop-AreNumbered (after - v.dropped) v.dropped _ j.entries refl within v.numbered) in
      ap (λ es. map_or j.sequence (λ (x : Event). x.sequence) (last es)) h
      ∙ last-AreNumbered j.sequence _ e rest (subst (AreNumbered _) shape numbered)
      ∙ ap (λ (es : List Event). v.dropped + (after - v.dropped) + length es) (sym h)

  page-next_cursor_nil :
      (page j after limit).entries ≡ [] → (page j after limit).next_cursor ≡ j.sequence
  unfolding page last
  page-next_cursor_nil h = ap (λ es. map_or j.sequence (λ (x : Event). x.sequence) (last es)) h

  -- In a valid journal and with a positive limit, a page and what follows its cursor are together
  -- what follows the cursor that was asked for: no event is skipped and none is shown twice.
  pub page-append :
      0 < limit
      → (page j after limit).entries
          ++ select (λ e. ltb (page j after limit).next_cursor e.sequence) j.entries
        ≡ select (λ e. ltb after e.sequence) j.entries
  page-append positive = elim (list-cases (page j after limit).entries) [
    | inl e ↦
        let gone =
          take-nil (min limit log_capacity) (drop (after - v.dropped) j.entries) (omega arith)
            (sym page-entries ∙ e) in
        rw
          (
            e,
            page-next_cursor_nil e,
            select-drop j.sequence v.dropped j.entries v.numbered,
            select-drop after v.dropped j.entries v.numbered,
          )
          (ap (λ n. drop n j.entries) (omega (arith, v.counted)) ∙ drop-length j.entries ∙ sym gone)
    | inr (e, rest, h) ↦
        let size = length (page j after limit).entries in
        let next = page-next_cursor e rest h in
        let further : (page j after limit).next_cursor - v.dropped ≡ after - v.dropped + size =
          omega (arith, next) in
        rw
          (
            select-drop (page j after limit).next_cursor v.dropped j.entries v.numbered,
            further,
            ← drop-drop size (after - v.dropped) j.entries,
            select-drop after v.dropped j.entries v.numbered,
            page-entries,
          )
          (take_then_drop (min limit log_capacity) (drop (after - v.dropped) j.entries))
  ]

  -- In a valid journal a page has at most `limit` and at most `log_capacity` events. It reports
  -- the highest number that was evicted, and that it is truncated exactly when that number is
  -- past the cursor.
  pub page_bounds :
      (length (page j after limit).entries ≤ min limit log_capacity)
      × ((page j after limit).dropped_before ≡ v.dropped)
      × ((page j after limit).truncated ≡ ltb after v.dropped)
  unfolding page front
  page_bounds = (
    length-take-le (min limit log_capacity) _,
    oldest j.entries v.numbered v.fresh,
    ap (ltb after) (oldest j.entries v.numbered v.fresh),
  )
    where
      oldest :
          (es : List Event)
          → AreNumbered v.dropped es
          → (es ≡ [] → v.dropped ≡ 0)
          → map_or 0 (λ (e : Event). e.sequence - 1) (front es) ≡ v.dropped
      oldest [] a f = sym (f refl)
      oldest (e ∷ es) a f = omega (arith, a.0)
