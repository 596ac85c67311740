-- ===== src/Account/SignIn/Previous.antt =====
-- What a sign-in makes of the evidence and the authority before.
use psky.Prelude.{
  ℕ, ◌≤◌, ◌≡◌, ◌≢◌, refl, sym, ap, ◌∙◌, ◌⊎◌, inl, inr, true, false, Bool, Bool-cases, or_false,
  Option, none, some, Bytes, bytes_ord, ◌=?◌, =?_iff, Result, ok, err, passed, arith, ltb, [],
  if◌then◌else◌,
}
use psky.Prelude.Sorted as Sorted
use psky.Credentials.Types as CredentialTypes
use psky.Credentials.Store.{invalidate_authority}
use psky.Credentials.Sessions.Revocation.{invalidate_authority-emptied}
use psky.Farcaster.Types as AuthTypes
use psky.Account.Types.{Evidence, Core, Draws, Failure, Env}
use psky.Account.SignIn.{is_older, check_previous, check_decoded, cleared, supersede}

-- No later block was seen before, and at the same height none of another hash.
abbrev pub NotOlder : Env → AuthTypes.VerifiedIdentity → Option Bytes → Type 0
NotOlder env verified none = Unit {0}
NotOlder env verified (some raw) =
    (saved : Evidence) × (env.decode_evidence raw ≡ some saved)
    × (saved.identity.checked_block ≤ verified.checked_block)
    × (verified.checked_block ≡ saved.identity.checked_block
        → verified.block_hash ≡ saved.identity.block_hash)

-- What is left of the tables and the grants: all of it, or nothing where another authority was bound.
abbrev pub Replaced :
    Core
    → Bytes
    → Option CredentialTypes.Account
    → Sorted.Map Bytes ℕ
    → CredentialTypes.Store
    → Type 0
Replaced core authority none grants store =
    (grants ≡ core.grants)
    × (store.passwords ≡ core.store.passwords)
    × (store.sessions ≡ core.store.sessions)
Replaced core authority (some bound) grants store =
    ((bound.authority ≡ authority)
      × (grants ≡ core.grants)
      × (store.passwords ≡ core.store.passwords)
      × (store.sessions ≡ core.store.sessions))
    ⊎ ((bound.authority ≢ authority)
        × (grants ≡ [])
        × (store.passwords ≡ [])
        × (store.sessions ≡ []))

-- The store and the grants once another authority than the new one has lost what it had.
abbrev pub Superseded : Env → Core → Bytes → Option CredentialTypes.Account → Core → Type 0
Superseded env core authority none mid = (mid.store ≡ core.store) × (mid.grants ≡ core.grants)
Superseded env core authority (some bound) mid =
    ((bound.authority ≡ authority) × (mid.store ≡ core.store) × (mid.grants ≡ core.grants))
    ⊎ ((bound.authority ≢ authority)
        × (invalidate_authority env.credentials core.store ≡ ok mid.store)
        × (mid.grants ≡ []))

is_older-NotOlder :
    (verified previous : AuthTypes.VerifiedIdentity)
    → is_older verified previous ≡ false
    → (previous.checked_block ≤ verified.checked_block)
      × (verified.checked_block ≡ previous.checked_block
          → verified.block_hash ≡ previous.block_hash)
is_older-NotOlder verified previous h =
    let (later, same) = or_false (ltb verified.checked_block previous.checked_block) _ h in
    (
      ground (arith, later),
      λ e. (=?_iff verified.block_hash previous.block_hash).0 (ground (arith, same, e)),
    )

module _ (env : Env) (now : ℕ) (draws : Draws) where
  pub check_previous-NotOlder :
      (verified : AuthTypes.VerifiedIdentity) (raw : Option Bytes) {u : Unit {0}}
      → check_previous env now draws verified raw ≡ ok u
      → NotOlder env verified raw
  check_previous-NotOlder verified none h = tt
  check_previous-NotOlder verified (some raw) h = read (env.decode_evidence raw) refl h
    where
      read :
          (found : Option Evidence) {u : Unit {0}}
          → env.decode_evidence raw ≡ found
          → check_decoded env now draws verified found ≡ ok u
          → NotOlder env verified (some raw)
      read none e h = absurd (cc)
      read (some saved) e h =
          let (later, same) = is_older-NotOlder verified saved.identity (passed _ _ h) in
          (saved, e, later, same)

  pub supersede-Superseded :
      (authority : Bytes) (loaded : Option CredentialTypes.Account) (core mid : Core) {u : Unit {0}}
      → supersede env now draws authority loaded core ≡ (mid, ok u)
      → Superseded env core authority loaded mid
  unfolding supersede
  supersede-Superseded authority none core mid h = (
    ap (λ (s : Core × Result Failure (Unit {0})). s.0.store) (sym h),
    ap (λ (s : Core × Result Failure (Unit {0})). s.0.grants) (sym h),
  )
  supersede-Superseded authority (some bound) core mid h =
      elim (Bool-cases (bound.authority =? authority)) [
        | inl same ↦
            let left = rw same at h in
            inl (
              (=?_iff bound.authority authority).0 same,
              ap (λ (s : Core × Result Failure (Unit {0})). s.0.store) (sym left),
              ap (λ (s : Core × Result Failure (Unit {0})). s.0.grants) (sym left),
            )
        | inr other ↦ inr (
            invalidated (invalidate_authority env.credentials core.store) refl other
              (rw other at h))
      ]
    where
      invalidated :
          (result : Result CredentialTypes.Error CredentialTypes.Store) {u : Unit {0}}
          → invalidate_authority env.credentials core.store ≡ result
          → (bound.authority =? authority) ≡ false
          → cleared env now draws core result ≡ (mid, ok u)
          → (bound.authority ≢ authority)
            × (invalidate_authority env.credentials core.store ≡ ok mid.store)
            × (mid.grants ≡ [])
      invalidated (ok store) e other h = (
        (λ same. cc ((=?_iff bound.authority authority).1 same, other)),
        e ∙ ap (λ (s : Core × Result Failure (Unit {0})). ok s.0.store) h,
        ap (λ (s : Core × Result Failure (Unit {0})). s.0.grants) (sym h),
      )
      invalidated (err f) e other h = absurd (cc (ap (λ s. s.1) h))

  -- The rest of the state stays.
  pub supersede-settings :
      (authority : Bytes) (loaded : Option CredentialTypes.Account) (core mid : Core) {u : Unit {0}}
      → supersede env now draws authority loaded core ≡ (mid, ok u)
      → mid.settings ≡ core.settings
  unfolding supersede
  supersede-settings authority none core mid h =
      ap (λ (s : Core × Result Failure (Unit {0})). s.0.settings) (sym h)
  supersede-settings authority (some bound) core mid h =
      kept (bound.authority =? authority) (invalidate_authority env.credentials core.store) h
    where
      kept :
          (same : Bool) (result : Result CredentialTypes.Error CredentialTypes.Store) {u : Unit {0}}
          → (if same then (core, ok tt) else cleared env now draws core result) ≡ (mid, ok u)
          → mid.settings ≡ core.settings
      kept true result h = ap (λ (s : Core × Result Failure (Unit {0})). s.0.settings) (sym h)
      kept false (ok store) h = ap (λ (s : Core × Result Failure (Unit {0})). s.0.settings) (sym h)
      kept false (err f) h = absurd (cc (ap (λ s. s.1) h))

  -- The binding and the evidence change no password and no session.
  pub Superseded-Replaced :
      (core mid : Core) (authority : Bytes) (loaded : Option CredentialTypes.Account)
      (store : CredentialTypes.Store)
      → store.passwords ≡ mid.store.passwords
      → store.sessions ≡ mid.store.sessions
      → Superseded env core authority loaded mid
      → Replaced core authority loaded mid.grants store
  Superseded-Replaced core mid authority none store p q (same, grants) = (
    grants,
    p ∙ ap (λ (s : CredentialTypes.Store). s.passwords) same,
    q ∙ ap (λ (s : CredentialTypes.Store). s.sessions) same,
  )
  Superseded-Replaced core mid authority (some bound) store p q (inl (as_bound, same, grants)) =
      inl (
        as_bound,
        grants,
        p ∙ ap (λ (s : CredentialTypes.Store). s.passwords) same,
        q ∙ ap (λ (s : CredentialTypes.Store). s.sessions) same,
      )
  Superseded-Replaced core mid authority (some bound) store p q (inr (other, invalidated, grants)) =
      let (passwords, sessions) =
        invalidate_authority-emptied env.credentials core.store mid.store invalidated in
      inr (other, grants, p ∙ passwords, q ∙ sessions)
