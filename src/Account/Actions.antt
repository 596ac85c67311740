-- ===== src/Account/Actions.antt =====
-- `execute` of crates/psky/src/account.rs. A reply holds what the program writes as JSON; random values and
-- the readings of the clock, before and behind the answers of the network, are arguments.
pub mod Allowed
pub mod Authorized
pub mod Rates
use psky.Prelude.{
  ℕ, ◌+◌, ◌<◌, Bool, true, false, not, Option, none, some, Bytes, Result, ok, err, ok_or, fail_if,
  List, [], ◌∷◌, select, ltb, if◌then◌else◌,
}
use psky.Prelude.Sorted.{Map}
use psky.Prelude.Text.{codes}
use psky.Json.{Value}
use psky.Credentials.Types as CredentialTypes
use psky.Credentials.Store as CredentialStore
use psky.Credentials.Store.Opening.{bound_did_document}
use psky.Credentials.Sessions as Sessions
use psky.Account.Types.{Pending, Core, Draws, Failure, Env}
use psky.Account.Failures.{disabled, from_credential}
use psky.Account.Limits.{limit}
use psky.Account.Authority.{authority, grant}
use psky.Account.Settings.{identity}
use psky.Account.SignIn.{Started, Progress, begin, resume}
use psky.Account.State.{Act, with_unit, ◌>>=◌, ◌>>◌, done, reads, asks, writes}

pub data Action : Type 0 where
  start : Action
  poll : (id token : Bytes) → Action
  passwords : (token : Bytes) → Action
  issue : (token name : Bytes) → Action
  revoke : (token name : Bytes) → Action
  login : (identifier password : Bytes) → Action
  session : (token : Bytes) → Action
  refresh : (token : Bytes) → Action
  logout : (token : Bytes) → Action
  describe : Action
  did : Action
  preferences : (token : Bytes) → Action

pub data Reply : Type 0 where
  started : Started → Reply
  polled : Progress → Reply
  listed : List CredentialTypes.PasswordInfo → Reply
  issued : CredentialTypes.IssuedPassword → (handle service_url : Bytes) → Reply
  opened : CredentialTypes.Session → Reply
  shown : CredentialTypes.SessionInfo → Reply
  empty : Reply
  described : (did : Bytes) → Reply
  document : Value → Reply
  no_preferences : Reply

unfoldable pub label : Action → Bytes
label start = codes "farcaster_login_start"
label (poll id token) = codes "farcaster_login_poll"
label (passwords token) = codes "password_list"
label (issue token name) = codes "password_issue"
label (revoke token name) = codes "password_revoke"
label (login identifier password) = codes "session_login"
label (session token) = codes "session_check"
label (refresh token) = codes "session_refresh"
label (logout token) = codes "session_logout"
label describe = codes "server_description"
label did = codes "identity_read"
label (preferences token) = codes "preferences_read"

-- What has expired is dropped first.
unfoldable pub forget_expired : ℕ → Core → Core
forget_expired now core = record core {
  pending = select (λ (e : Bytes × Pending). ltb now e.1.challenge.expires_at) core.pending;
  grants = select (λ (e : Bytes × ℕ). ltb now e.1) core.grants;
}

-- `limit` on the times of the logins.
unfoldable pub limit_logins : ℕ → Act (Unit {0})
limit_logins now core =
    let limited = limit core.password_times now 60 20 in
    (record core { password_times = limited.0 }, limited.1)

abbrev pub map_failure :
    Result Bytes CredentialTypes.Identity → Result Failure CredentialTypes.Identity
map_failure (ok identity) = ok identity
map_failure (err message) = err disabled

module _ (env : Env) (now : ℕ) where
  -- The grant holds before and after the authority was checked.
  abbrev pub authorize : Draws → Bytes → Act (Unit {0})
  authorize draws token = do
    reads (λ core. grant env core token now)
    λ core. authority env core now
    reads (λ core. grant env core token draws.settled_at)

  abbrev bound_account : Act CredentialTypes.Account
  bound_account = do
    loaded ← asks (CredentialStore.account env.credentials)
    reads (λ core. ok_or loaded (from_credential CredentialTypes.Error.not_bound))

  -- What is done when everything has been checked.
  abbrev pub list_all : Act Reply
  list_all = do rows ← asks (λ store. ok (Sessions.list_passwords store)); done (listed rows)

  abbrev pub issue_named : Draws → Bytes → Act Reply
  issue_named draws name = do
    made ← writes (λ store.
        Sessions.issue_password env.credentials store name draws.settled_at draws.random draws.salt)
    account ← bound_account
    done (issued made account.identity.handle account.identity.service_url)

  abbrev pub revoke_named : Bytes → Act Reply
  revoke_named name = do
    writes (λ store. with_unit (Sessions.revoke_password store name))
    done empty

  abbrev pub open_session : Draws → Bytes → Bytes → Act Reply
  open_session draws identifier password = do
    made ← writes (λ store.
        Sessions.authenticate env.credentials store identifier password draws.settled_at draws.sid
          draws.refresh_jti draws.access_jti)
    done (opened made)

  abbrev pub renew_session : Draws → Bytes → Act Reply
  renew_session draws token = do
    made ← writes (λ store.
        Sessions.refresh_session env.credentials store token draws.settled_at draws.refresh_jti
          draws.access_jti)
    done (opened made)

  abbrev pub checked_login : Draws → Bytes → Bytes → Act Reply
  checked_login draws identifier password = do
    valid ← asks (λ store. Sessions.validate_password env.credentials store identifier password)
    held ← λ core. authority env core now
    open_session draws identifier password

  unfoldable pub perform : Draws → Action → Act Reply
  unfolding limit_logins
  perform draws start = do begun ← begin env now draws; done (started begun)
  perform draws (poll id token) = do
    progress ← resume env now draws id token
    done (polled progress)
  perform draws (passwords token) = do authorize draws token; list_all
  perform draws (issue token name) = do authorize draws token; issue_named draws name
  perform draws (revoke token name) = do reads (λ core. grant env core token now); revoke_named name
  perform draws (login identifier password) = do
    limit_logins now
    checked_login draws identifier password
  perform draws (session token) = do
    info ← asks (λ store. Sessions.get_session env.credentials store token now)
    held ← λ core. authority env core now
    done (shown info)
  perform draws (refresh token) = do
    info ← asks (λ store. Sessions.validate_refresh env.credentials store token now)
    held ← λ core. authority env core now
    renew_session draws token
  perform draws (logout token) = do
    writes (λ store. with_unit (Sessions.delete_session env.credentials store token now))
    done empty
  perform draws describe = do
    found ← reads (λ core. map_failure (identity env core.settings))
    done (described found.service_did)
  perform draws did = do value ← asks (bound_did_document env.credentials); done (document value)
  perform draws (preferences token) = do
    info ← asks (λ store. Sessions.get_session env.credentials store token now)
    held ← λ core. authority env core now
    done no_preferences

  unfoldable pub execute : Draws → Action → Act Reply
  unfolding forget_expired perform
  execute draws action core =
      let performed = perform draws action (forget_expired now core) in
      if core.settings.enabled then performed else (core, err disabled)
