-- ===== src/Hypersnap/Authority/Latest.antt =====
-- Which of the events that it reads `parse_authority` keeps.
use psky.Prelude.{
  ℕ, ◌≡◌, refl, sym, ap, ◌⊎◌, inl, inr, true, false, Bool-cases, Option, none, some, Bytes, List,
  [], ◌∷◌, arith, leb, length, All,
}
use mathlib.Core.Path.{subst}
use psky.Prelude.Optional.{◌>>=◌, on_some, on_ensure, some-injective}
use psky.Prelude.Text.{codes}
use psky.Json.{Value, get, as_array}
use psky.Hypersnap.Types.{AuthorityObservation}
use psky.Hypersnap.Authority.{
  Position, is_later, read_event, keep_latest, read_events, address_of, observation,
  parse_authority,
}

abbrev pub Said : Type 0
Said = Option (Position × Bytes)

-- What the events say, one by one.
abbrev pub AreRead : ℕ → List Value → List Said → Type 0
AreRead fid [] [] = Unit {0}
AreRead fid (event ∷ events) (said ∷ saids) =
    (read_event fid event ≡ some said) × AreRead fid events saids
AreRead fid [] (_ ∷ _) = ⊥
AreRead fid (_ ∷ _) [] = ⊥

abbrev pub Occurs : Said → List Said → Type 0
Occurs said [] = ⊥
Occurs said (other ∷ saids) = (other ≡ said) ⊎ Occurs said saids

abbrev pub NoLater : Position → Said → Type 0
NoLater position none = Unit {0}
NoLater position (some (other, address)) = is_later other position ≡ false

-- The one that is reported occurs and none is later; there is none only where nothing was said.
abbrev pub IsLatest : List Said → Said → Type 0
IsLatest saids none = All (λ said. said ≡ none) saids
IsLatest saids (some (position, address)) =
    Occurs (some (position, address)) saids × All (NoLater position) saids

is_later-false_trans :
    (a b c : Position) → is_later a b ≡ false → is_later b c ≡ false → is_later a c ≡ false
is_later-false_trans (a, a1, a2) (b, b1, b2) (c, c1, c2) h k = ground arith

is_later_refl : (a : Position) → is_later a a ≡ false
is_later_refl (a, a1, a2) = ground arith

is_later-asym : (a b : Position) → is_later a b ≡ true → is_later b a ≡ false
is_later-asym (a, a1, a2) (b, b1, b2) h = ground arith

keep_latest-IsLatest :
    (latest said result : Said) (saids : List Said)
    → IsLatest (keep_latest latest said ∷ saids) result
    → IsLatest (latest ∷ said ∷ saids) result
unfolding keep_latest
keep_latest-IsLatest latest none none saids h = (h.0, (refl, h.1))
keep_latest-IsLatest latest none (some r) saids h = (behind h.0, (h.1.0, (tt, h.1.1)))
  where
    behind : Occurs (some r) (latest ∷ saids) → Occurs (some r) (latest ∷ none ∷ saids)
    behind (inl e) = inl e
    behind (inr o) = inr (inr o)
keep_latest-IsLatest none (some s) none saids h = absurd (cc h.0)
keep_latest-IsLatest none (some s) (some r) saids h = (inr h.0, (tt, h.1))
keep_latest-IsLatest (some l) (some s) result saids h = elim (Bool-cases (is_later s.0 l.0)) [
  | inl e ↦ newer result (is_later-asym s.0 l.0 e) (rw e at h)
  | inr e ↦ older result e (rw e at h)
]
  where
    newer :
        (result : Said)
        → is_later l.0 s.0 ≡ false
        → IsLatest (some s ∷ saids) result
        → IsLatest (some l ∷ some s ∷ saids) result
    newer none e k = absurd (cc k.0)
    newer (some r) e k = (inr k.0, (is_later-false_trans l.0 s.0 r.0 e k.1.0, k.1))

    older :
        (result : Said)
        → is_later s.0 l.0 ≡ false
        → IsLatest (some l ∷ saids) result
        → IsLatest (some l ∷ some s ∷ saids) result
    older none e k = absurd (cc k.0)
    older (some r) e k = (behind k.0, (k.1.0, (is_later-false_trans s.0 l.0 r.0 e k.1.0, k.1.1)))
      where
        behind : Occurs (some r) (some l ∷ saids) → Occurs (some r) (some l ∷ some s ∷ saids)
        behind (inl d) = inl d
        behind (inr o) = inr (inr o)

read_events-IsLatest :
    (fid : ℕ) (events : List Value) (latest result : Said)
    → read_events fid events latest ≡ some result
    → (saids : List Said) × AreRead fid events saids × IsLatest (latest ∷ saids) result
unfolding read_events
read_events-IsLatest fid [] latest result h = ([], tt, alone latest result (some-injective h))
  where
    alone : (latest result : Said) → latest ≡ result → IsLatest (latest ∷ []) result
    alone latest none e = (e, tt)
    alone latest (some r) e = (inl e, (nothing_later latest e, tt))
      where
        nothing_later : (said : Said) → said ≡ some r → NoLater r.0 said
        nothing_later none e = tt
        nothing_later (some s) e =
            let same : s ≡ r = some-injective e in
            subst (λ x. is_later x.0 r.0 ≡ false) (sym same) (is_later_refl r.0)
read_events-IsLatest fid (event ∷ events) latest result h =
    on_some (read_event fid event) _ h λ said read h.
      let (saids, all_read, is_latest) =
        read_events-IsLatest fid events (keep_latest latest said) result h in
      (said ∷ saids, (read, all_read), keep_latest-IsLatest latest said result saids is_latest)

-- The address that is reported is that of an event.
abbrev pub IsKept : List Said → Option Bytes → Type 0
IsKept saids custody = (latest : Said) × (address_of latest ≡ custody) × IsLatest saids latest

drop_nothing :
    (saids : List Said) (latest : Said) → IsLatest (none ∷ saids) latest → IsLatest saids latest
drop_nothing saids none h = h.1
drop_nothing saids (some r) h = (elim h.0 [ inl e ↦ absurd (cc e) | inr o ↦ o ], h.1.1)

pub parse_authority_latest :
    (value : Value) (fid : ℕ) (observed : AuthorityObservation)
    → parse_authority value fid ≡ some observed
    → (events : List Value) × (saids : List Said) × ((get (codes "events") value >>= as_array)
        ≡ some events)
      × (observed.registry_events ≡ length events)
      × (observed.verified ≡ false)
      × AreRead fid events saids
      × IsKept saids observed.reported_custody
unfolding parse_authority
parse_authority_latest value fid observed h =
    on_some (get (codes "events") value) _ h λ list found h.
      on_some (as_array list) _ h λ events read h. on_ensure (leb (length events) 1024) _ h λ few h.
        on_some (read_events fid events none) _ h λ latest scanned h.
          let (saids, all_read, is_latest) = read_events-IsLatest fid events none latest scanned in
          let made : observation events latest ≡ observed = some-injective h in
          (
            events,
            saids,
            rw found read,
            ap (λ (o : AuthorityObservation). o.registry_events) (sym made),
            ap (λ (o : AuthorityObservation). o.verified) (sym made),
            all_read,
            (
              latest,
              ap (λ (o : AuthorityObservation). o.reported_custody) made,
              drop_nothing saids latest is_latest,
            ),
          )
