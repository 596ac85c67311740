-- ===== src/Account/Actions/Allowed.antt =====
-- What is asked for before an action of crates/psky/src/account.rs.
use psky.Prelude.{
  ℕ, ◌<◌, ◌≡◌, ◌⊎◌, refl, true, false, map_or, Option, none, some, bytes_ord, ◌=?◌, Bytes, Result,
  ok, err, arith, ltb, length, select, if◌then◌else◌,
}
use mathlib.Core.Path.{subst}
use psky.Prelude.Sorted.{get}
use psky.Credentials.Types as CredentialTypes
use psky.Credentials.Sessions as Sessions
use psky.Account.Types.{Pending, Core, Failure, Env}
use psky.Account.Failures.{sign_in_again}
use psky.Account.Limits.{is_recent}
use psky.Account.Authority.{authority, grant, hash}
use psky.Account.Authority.Outcome.{Outcome, Cached, Confirmed, authority-Outcome}
use psky.Account.Actions.{
  Action, start, poll, passwords, issue, revoke, login, session, refresh, logout, describe, did,
  preferences, limit_logins,
}

-- There is a grant under the token's hash, and it has not expired.
abbrev pub Granted : Env → ℕ → Core → Bytes → Type 0
Granted env now core token =
    (expires : ℕ) × (get (hash env token) core.grants ≡ some expires) × (now < expires)

-- The authority is checked from this state, and it was confirmed a moment ago or is confirmed now.
abbrev pub AuthorityHeld : Env → ℕ → Core → Core → Type 0
AuthorityHeld env now core after =
    (authority env core now ≡ (after, ok tt))
    × (Cached env core now after ⊎ Confirmed env core now after)

abbrev pub HeldFrom : Env → ℕ → Core → Type 0
HeldFrom env now core = (after : Core) × AuthorityHeld env now core after

-- The grant holds before the check of the authority, and after it by a later reading of the clock.
abbrev pub GrantedTwice : Env → ℕ → ℕ → Core → Bytes → Type 0
GrantedTwice env now later core token =
    Granted env now core token
    × (after : Core) × AuthorityHeld env now core after
    × Granted env later after token

-- A token shows a session in the store, from a state in which the authority then held.
abbrev pub SessionHeld : Env → ℕ → Core → Bytes → Type 0
SessionHeld env now core token =
    ((info : CredentialTypes.SessionInfo) × (Sessions.get_session env.credentials core.store token
          now
        ≡ ok info))
    × HeldFrom env now core

-- What each action has checked of a state from which expired grants are gone.
abbrev pub Allowed : Env → ℕ → ℕ → Core → Action → Type 0
Allowed env now later core (passwords token) = GrantedTwice env now later core token
Allowed env now later core (issue token name) = GrantedTwice env now later core token
Allowed env now later core (revoke token name) = Granted env now core token
Allowed env now later core (login identifier password) =
    (length (select (is_recent now 60) core.password_times) < 20)
    × (Sessions.validate_password env.credentials core.store identifier password ≡ ok tt)
    × HeldFrom env now (limit_logins now core).0
Allowed env now later core (session token) = SessionHeld env now core token
Allowed env now later core (preferences token) = SessionHeld env now core token
Allowed env now later core (refresh token) =
    ((info : CredentialTypes.SessionInfo) × (Sessions.validate_refresh env.credentials core.store
          token now
        ≡ ok info))
    × HeldFrom env now core
Allowed env now later core (logout token) =
    (changed : CredentialTypes.Store) × (Sessions.delete_session env.credentials core.store token
        now
      ≡ ok changed)
Allowed env now later core start = Unit {0}
Allowed env now later core (poll id token) =
    (attempt : Pending) × (get id core.pending ≡ some attempt)
    × ((hash env token =? attempt.poll_hash) ≡ true)
Allowed env now later core describe = Unit {0}
Allowed env now later core did = Unit {0}

module _ (env : Env) (now : ℕ) where
  pub grant_sound :
      (core : Core) (token : Bytes) → grant env core token now ≡ ok tt → Granted env now core token
  unfolding grant
  grant_sound core token h = read (get (hash env token) core.grants) refl h
    where
      read :
          (found : Option ℕ)
          → get (hash env token) core.grants ≡ found
          → ◌≡◌ {A = Result Failure (Unit {0})}
              (if map_or false (ltb now) found then ok tt else err sign_in_again)
              (ok tt)
          → Granted env now core token
      read none found h = absurd (cc)
      read (some expires) found h = (expires, found, ground (arith, h))

  pub held_sound :
      (core after : Core)
      → authority env core now ≡ (after, ok tt)
      → AuthorityHeld env now core after
  held_sound core after h = (h, (subst (Outcome env core now) h (authority-Outcome env core now)).1)
