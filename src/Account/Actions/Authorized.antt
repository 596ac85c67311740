-- ===== src/Account/Actions/Authorized.antt =====
-- What an action has checked before it gives a reply.
use psky.Prelude.{
  bytes_ord, ℕ, ◌≡◌, refl, sym, ap, Bool, true, false, Bytes, Result, ok, err, ok-injective,
  if◌then◌else◌,
}
use mathlib.Core.Path.{subst}
use psky.Credentials.Types as CredentialTypes
use psky.Credentials.Sessions as Sessions
use psky.Account.Types.{Core, Draws, Failure, Env}
use psky.Account.Failures.{disabled}
use psky.Account.Authority.{authority, grant}
use psky.Account.Limits.{limit_iff}
use psky.Account.Actions.Allowed.{
  Granted, AuthorityHeld, HeldFrom, GrantedTwice, Allowed, grant_sound, held_sound,
}
use psky.Account.State.{Act, on_step, with_unit, ◌>>=◌, ◌>>◌, answered, asks, wrote, reads, done}
use psky.Account.SignIn.Permitted.{resume_sound}
use psky.Account.SignIn.{resume}
use psky.Account.Actions.{
  start, poll, polled, Action, passwords, issue, revoke, login, session, refresh, logout, describe,
  did, preferences, Reply, forget_expired, limit_logins, authorize, list_all, issue_named,
  revoke_named, open_session, renew_session, checked_login, shown, empty, no_preferences, perform,
  execute,
}

-- A result of a check, with the state as it was.
answered_sound :
    {A : Type 0} (core : Core) (answer : Result CredentialTypes.Error A) {mid : Core} {a : A}
    → answered core answer ≡ (mid, ok a)
    → (core ≡ mid) × (answer ≡ ok a)
answered_sound core (ok a) h = (ap (λ s. s.0) h, ap (λ x. ok x) (ok-injective (ap (λ s. s.1) h)))
answered_sound core (err e) h = absurd (cc (ap (λ s. s.1) h))

wrote_sound :
    (core : Core) (result : Result CredentialTypes.Error CredentialTypes.Store) {mid : Core}
    {u : Unit {0}}
    → wrote core (with_unit result) ≡ (mid, ok u)
    → (changed : CredentialTypes.Store) × (result ≡ ok changed)
wrote_sound core (ok changed) h = (changed, refl)
wrote_sound core (err e) h = absurd (cc (ap (λ s. s.1) h))

module _ (env : Env) (now : ℕ) where
  -- A query, and then the authority.
  asked_and_held :
      {A B : Type 0} (core : Core) (query : CredentialTypes.Store → Result CredentialTypes.Error A)
      (rest : A → Unit {0} → Act B) {next : Core} {b : B}
      → (asks query >>= λ a. ((λ c. authority env c now) >>= rest a)) core ≡ (next, ok b)
      → ((a : A) × (query core.store ≡ ok a)) × HeldFrom env now core
  asked_and_held core query rest h =
      on_step (answered core (query core.store)) (λ a. (λ c. authority env c now) >>= rest a) h
        λ mid a answer h.
          let (same, found) = answered_sound core (query core.store) answer in
          on_step (authority env mid now) (rest a) h λ after u held h. (
            (a, found),
            subst (HeldFrom env now) (sym same) (after, held_sound env now mid after held),
          )

  -- A grant, and then the authority.
  granted_and_held :
      {B : Type 0} (draws : Draws) (core : Core) (token : Bytes) (rest : Act B) {next : Core}
      {b : B}
      → (authorize env now draws token >> rest) core ≡ (next, ok b)
      → GrantedTwice env now draws.settled_at core token
  granted_and_held draws core token rest h =
      let again : Act (Unit {0}) = reads (λ c. grant env c token draws.settled_at) in
      on_step (authorize env now draws token core) (λ _. rest) h
        λ mid u authorized h.
          on_step (core, grant env core token now) (λ _. (λ c. authority env c now) >> again)
            authorized
            λ mid v granted authorized.
              on_step (authority env mid now) (λ _. again) authorized
                λ after w held regranted.
                  let same : core ≡ mid = ap (λ s. s.0) granted in
                  (
                    grant_sound env now core token (ap (λ s. s.1) granted),
                    after,
                    subst (λ c. AuthorityHeld env now c after) (sym same)
                        (held_sound env now mid after held),
                    grant_sound env draws.settled_at after token (ap (λ s. s.1) regranted),
                  )

  perform-Allowed :
      (draws : Draws) (action : Action) (core next : Core) (reply : Reply)
      → perform env now draws action core ≡ (next, ok reply)
      → Allowed env now draws.settled_at core action
  unfolding perform limit_logins
  perform-Allowed draws (passwords token) core next reply h =
      granted_and_held draws core token (list_all env now) h
  perform-Allowed draws (issue token name) core next reply h =
      granted_and_held draws core token (issue_named env now draws name) h
  perform-Allowed draws (revoke token name) core next reply h =
      on_step {P = Granted env now core token} (core, grant env core token now)
        (λ _. revoke_named env now name) h
        λ mid u granted _. grant_sound env now core token (ap (λ s. s.1) granted)
  perform-Allowed draws (login identifier password) core next reply h =
      on_step (limit_logins now core) (λ _. checked_login env now draws identifier password) h
        λ mid u limited h.
          let same : mid ≡ (limit_logins now core).0 =
            ap (λ (s : Core × Result Failure (Unit {0})). s.0) (sym limited) in
          let (checked, held) =
            asked_and_held mid
              (λ store. Sessions.validate_password env.credentials store identifier password)
              (λ _ _. open_session env now draws identifier password) h in
          let (is_valid, is_held) =
            subst
              (λ c.
                (Sessions.validate_password env.credentials c.store identifier password ≡ ok tt)
                × HeldFrom env now c)
              same (checked.1, held) in
          (
            (limit_iff core.password_times now 60 20).0.0
                (ap (λ (s : Core × Result Failure (Unit {0})). s.1) limited),
            is_valid,
            is_held,
          )
  perform-Allowed draws (session token) core next reply h =
      asked_and_held core (λ store. Sessions.get_session env.credentials store token now)
        (λ info _. done (shown info)) h
  perform-Allowed draws (preferences token) core next reply h =
      asked_and_held core (λ store. Sessions.get_session env.credentials store token now)
        (λ _ _. done no_preferences) h
  perform-Allowed draws (refresh token) core next reply h =
      asked_and_held core (λ store. Sessions.validate_refresh env.credentials store token now)
        (λ _ _. renew_session env now draws token) h
  perform-Allowed draws (logout token) core next reply h =
      on_step
        {P = (changed : CredentialTypes.Store) × (Sessions.delete_session env.credentials core.store
              token now
            ≡ ok changed)}
        (wrote core (with_unit (Sessions.delete_session env.credentials core.store token now)))
        (λ _. done empty) h
        λ mid u written _.
          wrote_sound core (Sessions.delete_session env.credentials core.store token now) written
  perform-Allowed draws start core next reply h = tt
  perform-Allowed draws (poll id token) core next reply h =
      on_step (resume env now draws id token core) (λ progress. done (polled progress)) h
        λ mid progress resumed _.
          let sound = resume_sound env now draws id token core mid progress resumed in
          (sound.attempt, sound.found, sound.is_holder)
  perform-Allowed draws describe core next reply h = tt
  perform-Allowed draws did core next reply h = tt

enabled_only :
    (enabled : Bool) (core : Core) (performed : Core × Result Failure Reply) {next : Core}
    {reply : Reply}
    → (if enabled then performed else (core, err disabled)) ≡ (next, ok reply)
    → (enabled ≡ true) × (performed ≡ (next, ok reply))
enabled_only true core performed h = (refl, h)
enabled_only false core performed h = absurd (cc (ap (λ s. s.1) h))

-- An action gives a reply only where sign-in is enabled, and only after its own check on the store as it
-- stands and the grants that have not expired: a grant for what shows or changes passwords, a password for
-- a login, of which there were fewer than twenty in the last minute, a token for a session, its
-- preferences, a refresh or a logout. All of these but the revocation of a password and the logout also
-- wait for a check of the authority from that very state, which succeeds from its last success less than
-- half a minute ago or by a recheck of the evidence, and what shows or makes passwords needs the grant to
-- hold after it too, by a later reading of the clock. A sign-in is polled only under the token of its attempt. The start of one and what
-- describes the server and its identity need nothing else.
pub execute-Allowed :
    (env : Env) (now : ℕ) (draws : Draws) (action : Action) (core next : Core) (reply : Reply)
    → execute env now draws action core ≡ (next, ok reply)
    → (core.settings.enabled ≡ true)
      × Allowed env now draws.settled_at (forget_expired now core) action
unfolding execute
execute-Allowed env now draws action core next reply h =
    let (enabled, performed) =
      enabled_only core.settings.enabled core
        (perform env now draws action (forget_expired now core)) h in
    (enabled, perform-Allowed env now draws action (forget_expired now core) next reply performed)
