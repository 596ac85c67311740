-- ===== src/Account/Authority/Outcome.antt =====
-- What a check of the authority can lead to.
use mathlib.Core.Path.{subst}
use psky.Prelude.{
  err-injective, on_pass, ok-injective, sym, ap, ◌∙◌, ℕ, ◌-◌, ◌≤◌, ◌<◌, ◌≡◌, ◌⊎◌, refl, inl, inr,
  Bool, true, false, not, Option, none, some, Bytes, Result, ok, err, [], arith, if◌then◌else◌,
}
use psky.Credentials.Types as CredentialTypes
use psky.Credentials.Store.{set_evidence, invalidate_authority}
use psky.Credentials.Sessions.Revocation.{invalidate_authority-emptied}
use psky.Farcaster.Types as AuthTypes
use psky.Farcaster.Client.{recheck_identity}
use psky.Account.Types.{Evidence, Core, Failure, Env}
use psky.Account.Failures.{disabled, from_auth, from_credential}
use psky.Account.Authority.{
  is_cached, saved_evidence, client, is_verdict, save_stored, save_evidence, revoke_stored, revoke,
  settle, recheck_with, recheck, authority,
}

-- A recheck that ends so is a verdict against the account.
abbrev pub IsVerdict : AuthTypes.AuthError → Type 0
IsVerdict error =
    (error ≡ AuthTypes.AuthError.unauthorized) ⊎ (error ≡ AuthTypes.AuthError.invalid_signature)

module _ (env : Env) where
  is_verdict-of_IsVerdict :
      (error : AuthTypes.AuthError) → IsVerdict error → is_verdict env error ≡ true
  unfolding is_verdict
  is_verdict-of_IsVerdict error (inl e) = subst (λ x. is_verdict env x ≡ true) (sym e) refl
  is_verdict-of_IsVerdict error (inr e) = subst (λ x. is_verdict env x ≡ true) (sym e) refl

  is_verdict-IsVerdict :
      (error : AuthTypes.AuthError) → is_verdict env error ≡ true → IsVerdict error
  unfolding is_verdict
  is_verdict-IsVerdict AuthTypes.AuthError.unauthorized h = inl refl
  is_verdict-IsVerdict AuthTypes.AuthError.invalid_signature h = inr refl
  is_verdict-IsVerdict AuthTypes.AuthError.invalid_config h = absurd (cc)
  is_verdict-IsVerdict AuthTypes.AuthError.invalid_challenge h = absurd (cc)
  is_verdict-IsVerdict AuthTypes.AuthError.invalid_relay_response h = absurd (cc)
  is_verdict-IsVerdict AuthTypes.AuthError.channel_expired h = absurd (cc)
  is_verdict-IsVerdict AuthTypes.AuthError.unavailable h = absurd (cc)
  is_verdict-IsVerdict AuthTypes.AuthError.invalid_message h = absurd (cc)
  is_verdict-IsVerdict AuthTypes.AuthError.unsupported_wallet h = absurd (cc)
  is_verdict-IsVerdict AuthTypes.AuthError.invalid_chain_evidence h = absurd (cc)

module _ (env : Env) (core : Core) (now : ℕ) where
  -- The evidence in the store was checked anew, with this result.
  pub record Rechecked (saved : Evidence)
      (result : Result AuthTypes.AuthError AuthTypes.VerifiedIdentity) : Type 0 where
    pub auth_client : AuthTypes.AuthClient
    pub is_saved : saved_evidence env core ≡ ok saved
    pub is_client : client env core ≡ ok auth_client
    pub is_result : recheck_identity env.auth auth_client saved.identity saved.proof now ≡ result

  Rechecked-unique :
      {saved other : Evidence} {result last : Result AuthTypes.AuthError AuthTypes.VerifiedIdentity}
      → Rechecked saved result
      → Rechecked other last
      → result ≡ last
  Rechecked-unique {saved = saved} {other = other} r q =
      let same_saved : saved ≡ other = ok-injective (sym r.is_saved ∙ q.is_saved) in
      let same_client : r.auth_client ≡ q.auth_client =
        ok-injective (sym r.is_client ∙ q.is_client) in
      sym r.is_result
      ∙ ap (λ c. recheck_identity env.auth c saved.identity saved.proof now) same_client
      ∙ ap (λ (e : Evidence). recheck_identity env.auth q.auth_client e.identity e.proof now)
          same_saved
      ∙ q.is_result

  -- It was checked less than half a minute ago.
  abbrev pub Cached : Core → Type 0
  Cached next =
      (next ≡ core)
      × ((time : ℕ) × (core.checked_at ≡ some time) × (time ≤ now) × (now - time < 30))

  -- It holds: the evidence of the recheck is in the store, and nothing else changed there.
  abbrev pub Confirmed : Core → Type 0
  Confirmed next =
      (saved : Evidence) × (identity : AuthTypes.VerifiedIdentity) × Rechecked saved (ok identity)
      × (document : Bytes) × (env.encode_evidence
            (record { identity = identity; proof = saved.proof })
          ≡ some document)
      × (set_evidence env.credentials core.store document ≡ ok next.store)
      × (next.checked_at ≡ some now)
      × (next.grants ≡ core.grants)

  -- A verdict against the account, with the evidence that was rechecked.
  abbrev pub Verdict : AuthTypes.AuthError → Type 0
  Verdict error = (saved : Evidence) × Rechecked saved (err error) × IsVerdict error

  -- The verdict is recorded: nothing that could be used is left.
  abbrev pub Revoked : Core → Failure → Type 0
  Revoked next failure =
      (error : AuthTypes.AuthError) × Verdict error
      × (failure ≡ from_auth error)
      × (next.grants ≡ [])
      × (next.store.passwords ≡ [])
      × (next.store.sessions ≡ [])
      × (next.checked_at ≡ none)

  -- The store could not record the verdict; the next check is not spared.
  abbrev pub Unrecorded : Core → Failure → Type 0
  Unrecorded next failure =
      (error : AuthTypes.AuthError) × Verdict error
      × (reason : CredentialTypes.Error) × (invalidate_authority env.credentials core.store
          ≡ err reason)
      × (failure ≡ from_credential reason)
      × (next.store ≡ core.store)
      × (next.checked_at ≡ none)

  -- There is no verdict, and the store and the grants are as they were.
  abbrev pub Untouched : Core → Type 0
  Untouched next =
      ((error : AuthTypes.AuthError) → ¬ Verdict error)
      × (next.store ≡ core.store)
      × (next.grants ≡ core.grants)

  abbrev pub Outcome : Core × Result Failure (Unit {0}) → Type 0
  Outcome (next, ok u) = (core.settings.enabled ≡ true) × (Cached next ⊎ Confirmed next)
  Outcome (next, err failure) = Revoked next failure ⊎ (Unrecorded next failure ⊎ Untouched next)

  -- A recheck that succeeds is no verdict.
  confirmed :
      {saved : Evidence} {identity : AuthTypes.VerifiedIdentity}
      → Rechecked saved (ok identity)
      → (error : AuthTypes.AuthError) → ¬ Verdict error
  confirmed r error (other, q, verdict) = cc (Rechecked-unique r q)

  save_stored-Outcome :
      (saved : Evidence) (identity : AuthTypes.VerifiedIdentity) (document : Bytes)
      (stored : Result CredentialTypes.Error CredentialTypes.Store)
      → core.settings.enabled ≡ true
      → Rechecked saved (ok identity)
      → env.encode_evidence (record { identity = identity; proof = saved.proof }) ≡ some document
      → set_evidence env.credentials core.store document ≡ stored
      → Outcome (save_stored env core now stored)
  unfolding save_stored
  save_stored-Outcome saved identity document (ok store) enabled rechecked encoded written =
      (enabled, inr (saved, identity, rechecked, document, encoded, written, refl, refl))
  save_stored-Outcome saved identity document (err e) enabled rechecked encoded written =
      inr (inr (confirmed rechecked, refl, refl))

  save_evidence-Outcome :
      (saved : Evidence) (identity : AuthTypes.VerifiedIdentity) (document : Option Bytes)
      → core.settings.enabled ≡ true
      → Rechecked saved (ok identity)
      → env.encode_evidence (record { identity = identity; proof = saved.proof }) ≡ document
      → Outcome (save_evidence env core now document)
  unfolding save_evidence
  save_evidence-Outcome saved identity none enabled rechecked encoded =
      inr (inr (confirmed rechecked, refl, refl))
  save_evidence-Outcome saved identity (some document) enabled rechecked encoded =
      save_stored-Outcome saved identity document (set_evidence env.credentials core.store document)
        enabled rechecked encoded refl

  revoke_stored-Outcome :
      (error : AuthTypes.AuthError) (stored : Result CredentialTypes.Error CredentialTypes.Store)
      → Verdict error
      → invalidate_authority env.credentials core.store ≡ stored
      → Outcome (revoke_stored env core error stored)
  unfolding revoke_stored
  revoke_stored-Outcome error (ok store) verdict invalidated =
      let (passwords, sessions) =
        invalidate_authority-emptied env.credentials core.store store invalidated in
      inl (error, verdict, refl, refl, passwords, sessions, refl)
  revoke_stored-Outcome error (err e) verdict invalidated =
      inr (inl (error, verdict, e, invalidated, refl, refl, refl))

  revoke-Outcome :
      (saved : Evidence) (error : AuthTypes.AuthError) (verdict : Bool)
      → is_verdict env error ≡ verdict
      → Rechecked saved (err error)
      → Outcome (revoke env core error verdict)
  unfolding revoke
  revoke-Outcome saved error true is_one rechecked =
      revoke_stored-Outcome error (invalidate_authority env.credentials core.store)
        (saved, rechecked, is_verdict-IsVerdict env error is_one) refl
  revoke-Outcome saved error false is_none rechecked = inr (inr (innocent, refl, refl))
    where
      innocent : (other : AuthTypes.AuthError) → ¬ Verdict other
      innocent other (s, q, verdict) =
          let same : error ≡ other = err-injective (Rechecked-unique rechecked q) in
          cc (
            is_none,
            subst (λ e. is_verdict env e ≡ true) (sym same)
                (is_verdict-of_IsVerdict env other verdict),
          )

  settle-Outcome :
      (saved : Evidence) (result : Result AuthTypes.AuthError AuthTypes.VerifiedIdentity)
      → core.settings.enabled ≡ true
      → Rechecked saved result
      → Outcome (settle env core now saved result)
  unfolding settle
  settle-Outcome saved (ok identity) enabled rechecked =
      save_evidence-Outcome saved identity
        (env.encode_evidence (record { identity = identity; proof = saved.proof })) enabled
        rechecked refl
  settle-Outcome saved (err error) enabled rechecked =
      revoke-Outcome saved error (is_verdict env error) refl rechecked

  recheck_with-Outcome :
      (saved : Evidence) (made : Result Failure AuthTypes.AuthClient)
      → core.settings.enabled ≡ true
      → saved_evidence env core ≡ ok saved
      → client env core ≡ made
      → Outcome (recheck_with env core now saved made)
  unfolding recheck_with
  recheck_with-Outcome saved (err failure) enabled is_saved is_client =
      inr (inr ((λ error verdict. cc (is_client, verdict.1.is_client)), refl, refl))
  recheck_with-Outcome saved (ok auth_client) enabled is_saved is_client =
      settle-Outcome saved (recheck_identity env.auth auth_client saved.identity saved.proof now)
        enabled
        (record {
          auth_client = auth_client;
          is_saved = is_saved;
          is_client = is_client;
          is_result = refl;
        })

  recheck-Outcome :
      (read : Result Failure Evidence)
      → core.settings.enabled ≡ true
      → saved_evidence env core ≡ read
      → Outcome (recheck env core now read)
  unfolding recheck
  recheck-Outcome (err failure) enabled is_saved =
      inr (inr ((λ error verdict. cc (is_saved, verdict.1.is_saved)), refl, refl))
  recheck-Outcome (ok saved) enabled is_saved =
      recheck_with-Outcome saved (client env core) enabled is_saved refl

  Cached-of_is_cached :
      (checked_at : Option ℕ)
      → is_cached env checked_at now ≡ true
      → (time : ℕ) × (checked_at ≡ some time) × (time ≤ now) × (now - time < 30)
  unfolding is_cached
  Cached-of_is_cached none h = absurd (cc)
  Cached-of_is_cached (some time) h = (time, refl, ground (arith, h), ground (arith, h))

  -- Where sign-in is disabled there is no client to recheck with.
  no_client : core.settings.enabled ≡ false → (error : AuthTypes.AuthError) → ¬ Verdict error
  unfolding client
  no_client disabled error (saved, rechecked, verdict) =
      on_pass (not core.settings.enabled) _ _ rechecked.is_client λ on _. cc (on, disabled)

  choose :
      (enabled cached : Bool) (checked : Core × Result Failure (Unit {0})) (failure : Failure)
      → core.settings.enabled ≡ enabled
      → is_cached env core.checked_at now ≡ cached
      → (core.settings.enabled ≡ true → Outcome checked)
      → Outcome
          (if not enabled then (core, err failure) else if cached then (core, ok tt) else checked)
  choose false cached checked failure enabled is_cached outcome =
      inr (inr (no_client enabled, refl, refl))
  choose true true checked failure enabled is_cached outcome =
      (enabled, inl (refl, Cached-of_is_cached core.checked_at is_cached))
  choose true false checked failure enabled is_cached outcome = outcome enabled

-- A check of the authority succeeds only where sign-in is enabled, and where it succeeded less than half a
-- minute ago or the evidence in the store has been rechecked against the chain, and then the new evidence
-- is stored. When it fails and the recheck refused the signature or the permission, the failure is that
-- one and no grant, password or session is left, unless the store failed to record it: then that is the
-- failure, the store is as it was, and the check is not remembered. Every other failure leaves the store
-- and the grants as they are.
pub authority-Outcome :
    (env : Env) (core : Core) (now : ℕ) → Outcome env core now (authority env core now)
unfolding authority
authority-Outcome env core now =
    choose env core now core.settings.enabled (is_cached env core.checked_at now)
      (recheck env core now (saved_evidence env core)) disabled refl refl
      (λ enabled. recheck-Outcome env core now (saved_evidence env core) enabled refl)
