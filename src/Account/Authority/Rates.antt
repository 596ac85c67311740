-- ===== src/Account/Authority/Rates.antt =====
-- A check of the authority starts nothing and logs nobody in.
use psky.Prelude.{
  ℕ, Bool, true, false, not, Option, none, some, Bytes, Result, ok, err, if◌then◌else◌,
}
use psky.Credentials.Types as CredentialTypes
use psky.Credentials.Store.{set_evidence, invalidate_authority}
use psky.Farcaster.Types as AuthTypes
use psky.Farcaster.Client.{recheck_identity}
use psky.Account.Types.{Evidence, Core, Failure, Env}
use psky.Account.Failures.{disabled}
use psky.Account.State.Keeping.{WithinLimits, Keeps}
use psky.Account.Authority.{
  is_cached, saved_evidence, client, is_verdict, save_stored, save_evidence, revoke_stored, revoke,
  settle, recheck_with, recheck, authority,
}

module _ (env : Env) (core : Core) (now : ℕ) (within : WithinLimits core) where
  save_stored-WithinLimits :
      (stored : Result CredentialTypes.Error CredentialTypes.Store)
      → WithinLimits (save_stored env core now stored).0
  unfolding save_stored
  save_stored-WithinLimits (ok store) = record { starts = within.starts; logins = within.logins }
  save_stored-WithinLimits (err e) = within

  save_evidence-WithinLimits :
      (document : Option Bytes) → WithinLimits (save_evidence env core now document).0
  unfolding save_evidence
  save_evidence-WithinLimits none = within
  save_evidence-WithinLimits (some document) =
      save_stored-WithinLimits (set_evidence env.credentials core.store document)

  revoke_stored-WithinLimits :
      (error : AuthTypes.AuthError) (stored : Result CredentialTypes.Error CredentialTypes.Store)
      → WithinLimits (revoke_stored env core error stored).0
  unfolding revoke_stored
  revoke_stored-WithinLimits error (ok store) = record {
    starts = within.starts;
    logins = within.logins;
  }
  revoke_stored-WithinLimits error (err e) = record {
    starts = within.starts;
    logins = within.logins;
  }

  revoke-WithinLimits :
      (error : AuthTypes.AuthError) (verdict : Bool)
      → WithinLimits (revoke env core error verdict).0
  unfolding revoke
  revoke-WithinLimits error true =
      revoke_stored-WithinLimits error (invalidate_authority env.credentials core.store)
  revoke-WithinLimits error false = record { starts = within.starts; logins = within.logins }

  settle-WithinLimits :
      (saved : Evidence) (result : Result AuthTypes.AuthError AuthTypes.VerifiedIdentity)
      → WithinLimits (settle env core now saved result).0
  unfolding settle
  settle-WithinLimits saved (ok identity) =
      save_evidence-WithinLimits
        (env.encode_evidence (record { identity = identity; proof = saved.proof }))
  settle-WithinLimits saved (err error) = revoke-WithinLimits error (is_verdict env error)

  recheck_with-WithinLimits :
      (saved : Evidence) (made : Result Failure AuthTypes.AuthClient)
      → WithinLimits (recheck_with env core now saved made).0
  unfolding recheck_with
  recheck_with-WithinLimits saved (err failure) = within
  recheck_with-WithinLimits saved (ok auth_client) =
      settle-WithinLimits saved
        (recheck_identity env.auth auth_client saved.identity saved.proof now)

  recheck-WithinLimits :
      (read : Result Failure Evidence) → WithinLimits (recheck env core now read).0
  unfolding recheck
  recheck-WithinLimits (err failure) = within
  recheck-WithinLimits (ok saved) = recheck_with-WithinLimits saved (client env core)

  choose :
      (enabled cached : Bool) (checked : Core × Result Failure (Unit {0}))
      → WithinLimits checked.0
      → WithinLimits
          (if not enabled
            then (core, err disabled)
            else if cached
            then (core, ok tt)
            else checked).0
  choose false cached checked kept = within
  choose true true checked kept = within
  choose true false checked kept = kept

pub Keeps-authority : (env : Env) (now : ℕ) → Keeps (λ core. authority env core now)
unfolding authority
Keeps-authority env now core within =
    choose env core now within core.settings.enabled (is_cached env core.checked_at now)
      (recheck env core now (saved_evidence env core))
      (recheck-WithinLimits env core now within (saved_evidence env core))
