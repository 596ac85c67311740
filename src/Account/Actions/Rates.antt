-- ===== src/Account/Actions/Rates.antt =====
-- How many starts and logins the account service of crates/psky/src/account.rs remembers.
use psky.Prelude.{ℕ, Bool, true, false, Result, err, if◌then◌else◌}
use psky.Account.Types.{Core, Draws, Failure, Env}
use psky.Account.Failures.{disabled}
use psky.Account.Limits.{limit_iff}
use psky.Account.State.Keeping.{WithinLimits, Keeps, keeping}
use psky.Account.Authority.Rates.{Keeps-authority}
use psky.Account.SignIn.Rates.{Keeps-begin, Keeps-resume}
use psky.Account.Actions.{
  Action, start, poll, passwords, issue, revoke, login, session, refresh, logout, describe, did,
  preferences, Reply, limit_logins, forget_expired, perform, execute,
}

Keeps-limit_logins : (now : ℕ) → Keeps (limit_logins now)
unfolding limit_logins
Keeps-limit_logins now core within = record {
  starts = within.starts;
  logins = (limit_iff core.password_times now 60 20).2 within.logins;
}

module _ (env : Env) (now : ℕ) (draws : Draws) where
  Keeps-perform : (action : Action) → Keeps (perform env now draws action)
  unfolding perform
  Keeps-perform start = search (keeping, Keeps-begin)
  Keeps-perform (poll id token) = search (keeping, Keeps-resume)
  Keeps-perform (passwords token) = search (keeping, Keeps-authority) depth 20 fits 4000
  Keeps-perform (issue token name) = search (keeping, Keeps-authority) depth 20 fits 4000
  Keeps-perform (revoke token name) = search keeping
  Keeps-perform (login identifier password) =
      search (keeping, Keeps-limit_logins, Keeps-authority) depth 20 fits 4000
  Keeps-perform (session token) = search (keeping, Keeps-authority) depth 20 fits 4000
  Keeps-perform (refresh token) = search (keeping, Keeps-authority) depth 20 fits 4000
  Keeps-perform (logout token) = search keeping
  Keeps-perform describe = search keeping
  Keeps-perform did = search keeping
  Keeps-perform (preferences token) = search (keeping, Keeps-authority) depth 20 fits 4000

  enabled_only :
      (enabled : Bool) (core : Core) (performed : Core × Result Failure Reply)
      → WithinLimits core
      → WithinLimits performed.0
      → WithinLimits (if enabled then performed else (core, err disabled)).0
  enabled_only true core performed within kept = kept
  enabled_only false core performed within kept = within

-- Whatever an action is and however it ends, the service never remembers more than five starts of a sign-in
-- and twenty logins, if it did not before.
pub execute-WithinLimits :
    (env : Env) (now : ℕ) (draws : Draws) (action : Action) (core : Core)
    → WithinLimits core
    → WithinLimits (execute env now draws action core).0
unfolding execute forget_expired
execute-WithinLimits env now draws action core within =
    enabled_only env now draws core.settings.enabled core
      (perform env now draws action (forget_expired now core)) within
      (Keeps-perform env now draws action (forget_expired now core)
        (record { starts = within.starts; logins = within.logins }))
