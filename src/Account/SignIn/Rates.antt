-- ===== src/Account/SignIn/Rates.antt =====
-- The start of a sign-in is counted, and its polling starts nothing and logs nobody in.
use psky.Prelude.{
  ℕ, Bool, true, false, Option, none, some, Bytes, bytes_ord, ◌=?◌, Result, ok, err, if◌then◌else◌,
}
use psky.Credentials.Types as CredentialTypes
use psky.Credentials.Store.{invalidate_authority}
use psky.Farcaster.Types as AuthTypes
use psky.Prelude.Sorted as Sorted
use psky.Account.Types.{Pending, Completion, Core, Draws, Failure, Env}
use psky.Account.Limits.{limit_iff}
use psky.Account.State.Keeping.{WithinLimits, Keeps, keeping}
use psky.Account.SignIn.{
  limit_starts, keep, refuse_if, begin, cleared, supersede, finish, bind_permitted, accept, prove,
  advance, resume,
}

Keeps-limit_starts : (now : ℕ) → Keeps (limit_starts now)
unfolding limit_starts
Keeps-limit_starts now core within = record {
  starts = (limit_iff core.start_times now 60 5).2 within.starts;
  logins = within.logins;
}

Keeps-keep : (id : Bytes) (attempt : Pending) → Keeps (keep id attempt)
unfolding keep
Keeps-keep id attempt core within = record { starts = within.starts; logins = within.logins }

Keeps-refuse_if :
    (test : Core → Bool) (failure : Failure) (id : Bytes) → Keeps (refuse_if test failure id)
unfolding refuse_if
Keeps-refuse_if test failure id core within = go (test core)
  where
    go :
        (b : Bool)
        → WithinLimits
            (if◌then◌else◌ {A = Core × Result Failure (Unit {0})} b
              (record core { pending = Sorted.remove id core.pending }, err failure)
              (core, ok tt)).0
    go true = record { starts = within.starts; logins = within.logins }
    go false = within

module _ (env : Env) (now : ℕ) (draws : Draws) where
  pub Keeps-begin : Keeps (begin env now draws)
  unfolding begin
  Keeps-begin = search (keeping, Keeps-limit_starts, Keeps-keep) depth 20 fits 4000

  Keeps-supersede :
      (authority : Bytes) (loaded : Option CredentialTypes.Account)
      → Keeps (supersede env now draws authority loaded)
  unfolding supersede
  Keeps-supersede authority none core within = within
  Keeps-supersede authority (some bound) core within =
      go (bound.authority =? authority) (invalidate_authority env.credentials core.store)
    where
      go :
          (same : Bool) (result : Result CredentialTypes.Error CredentialTypes.Store)
          → WithinLimits (if same then (core, ok tt) else cleared env now draws core result).0
      go true result = within
      go false (ok store) = record { starts = within.starts; logins = within.logins }
      go false (err e) = within

  Keeps-finish :
      (id : Bytes) (attempt : Pending) (completion : Completion)
      → Keeps (finish env now draws id attempt completion)
  unfolding finish
  Keeps-finish id attempt completion core within = record {
    starts = within.starts;
    logins = within.logins;
  }

  Keeps-bind_permitted :
      (id : Bytes) (attempt : Pending) (proof : AuthTypes.SignedProof)
      (verified : AuthTypes.VerifiedIdentity)
      → Keeps (bind_permitted env now draws id attempt proof verified)
  unfolding bind_permitted
  Keeps-bind_permitted id attempt proof verified =
      search (keeping, Keeps-supersede, Keeps-finish) depth 30 fits 4000

  Keeps-accept :
      (id : Bytes) (attempt : Pending) (proof : AuthTypes.SignedProof)
      (verified : AuthTypes.VerifiedIdentity)
      → Keeps (accept env now draws id attempt proof verified)
  unfolding accept
  Keeps-accept id attempt proof verified =
      search (keeping, Keeps-refuse_if, Keeps-bind_permitted) depth 20 fits 4000

  Keeps-prove :
      (id : Bytes) (attempt : Pending) (auth_client : AuthTypes.AuthClient)
      (proof : Option AuthTypes.SignedProof)
      → Keeps (prove env now draws id attempt auth_client proof)
  unfolding prove
  Keeps-prove id attempt auth_client none = search keeping
  Keeps-prove id attempt auth_client (some proof) =
      search (keeping, Keeps-keep, Keeps-accept) depth 20 fits 4000

  Keeps-advance :
      (id : Bytes) (auth_client : AuthTypes.AuthClient) (attempt : Pending)
      (completion : Option Completion)
      → Keeps (advance env now draws id auth_client attempt completion)
  unfolding advance
  Keeps-advance id auth_client attempt (some completion) = search keeping
  Keeps-advance id auth_client attempt none =
      search (keeping, Keeps-keep, Keeps-prove) depth 20 fits 4000

  pub Keeps-resume : (id token : Bytes) → Keeps (resume env now draws id token)
  unfolding resume
  Keeps-resume id token = search (keeping, Keeps-advance) depth 20 fits 4000
