-- ===== src/Account/Authority.antt =====
-- Who may act in crates/psky/src/account.rs: the client, the grants, and the recheck of the authority. The
-- clock's reading is an argument.
pub mod Outcome
pub mod Rates
use psky.Prelude.{
  ℕ, ◌+◌, ◌-◌, Bool, true, false, not, ◌&&◌, ◌||◌, Option, none, some, Bytes, bytes_ord, ◌=?◌,
  Result, ok, err, ◌>>=◌, ◌>>◌, fail_if, ok_or, map_err, map_or, [], ◌∷◌, ◌++◌, leb, ltb, ◌==◌,
  if◌then◌else◌,
}
use psky.Prelude.Sorted.{get}
use psky.Prelude.Text.{codes, decimal}
use psky.Credentials.Types as CredentialTypes
use psky.Credentials.Store.{account, evidence, set_evidence, invalidate_authority, same_identity}
use psky.Farcaster.Types as AuthTypes
use psky.Farcaster.Urls.{new}
use psky.Farcaster.Client.{recheck_identity}
use psky.Account.Types.{AccountSettings, Evidence, Core, Failure, Env}
use psky.Account.Settings.{identity, validate_settings}
use psky.Account.Failures.{
  internal, disabled, unverified, sign_in_again, from_auth, from_credential,
}

abbrev pub authority_cache : ℕ
authority_cache = 30

module _ (env : Env) where
  unfoldable pub hash : Bytes → Bytes
  hash value = env.auth.hex_encode (env.sha256 value)

  unfoldable pub fingerprint : AuthTypes.VerifiedIdentity → Bytes
  unfolding hash
  fingerprint identity =
      hash
        (decimal identity.fid ++ (b':' ∷ (identity.address ++ (b':' ∷ identity.custody_address))))

  unfoldable pub client : Core → Result Failure AuthTypes.AuthClient
  client core = do
    fail_if (not core.settings.enabled) disabled
    origin ← ok_or (env.auth.parse_url core.settings.service_url) disabled
    map_err from_auth (
        new env.auth (record {
          domain = origin.authority;
          uri = env.origin_text origin ++ codes "/account";
          relay_url = codes "https://relay.farcaster.xyz";
          optimism_rpc_url = core.settings.optimism_rpc_url;
        }))

  unfoldable pub is_cached : Option ℕ → ℕ → Bool
  is_cached none now = false
  is_cached (some time) now = leb time now && ltb (now - time) authority_cache

  -- The evidence in the store, for the account that is bound and enabled.
  unfoldable pub saved_evidence : Core → Result Failure Evidence
  unfolding fingerprint
  saved_evidence core = do
    loaded ← map_err from_credential (account env.credentials core.store)
    bound ← ok_or loaded (from_credential CredentialTypes.Error.not_bound)
    fail_if (not bound.enabled) (from_credential CredentialTypes.Error.disabled)
    raw ← map_err from_credential (evidence env.credentials core.store)
    document ← ok_or raw unverified
    saved ← ok_or (env.decode_evidence document) unverified
    fail_if
        (not (saved.identity.fid == bound.fid)
          || not (fingerprint saved.identity =? bound.authority))
        unverified
    ok saved

  unfoldable pub is_verdict : AuthTypes.AuthError → Bool
  is_verdict AuthTypes.AuthError.unauthorized = true
  is_verdict AuthTypes.AuthError.invalid_signature = true
  is_verdict _ = false

  -- The evidence is saved anew, before the check counts.
  unfoldable pub save_stored :
      Core
      → ℕ
      → Result CredentialTypes.Error CredentialTypes.Store
      → Core × Result Failure (Unit {0})
  save_stored core now (ok store) = (record core { store = store; checked_at = some now }, ok tt)
  save_stored core now (err e) = (core, err (from_credential e))

  unfoldable pub save_evidence : Core → ℕ → Option Bytes → Core × Result Failure (Unit {0})
  unfolding save_stored
  save_evidence core now none = (core, err internal)
  save_evidence core now (some document) =
      save_stored core now (set_evidence env.credentials core.store document)

  -- A verdict against the account invalidates it and every grant.
  unfoldable pub revoke_stored :
      Core
      → AuthTypes.AuthError
      → Result CredentialTypes.Error CredentialTypes.Store
      → Core × Result Failure (Unit {0})
  revoke_stored core error (ok store) =
      (record core { store = store; grants = []; checked_at = none }, err (from_auth error))
  revoke_stored core error (err e) = (record core { checked_at = none }, err (from_credential e))

  unfoldable pub revoke : Core → AuthTypes.AuthError → Bool → Core × Result Failure (Unit {0})
  unfolding revoke_stored
  revoke core error true =
      revoke_stored core error (invalidate_authority env.credentials core.store)
  revoke core error false = (record core { checked_at = none }, err (from_auth error))

  unfoldable pub settle :
      Core
      → ℕ
      → Evidence
      → Result AuthTypes.AuthError AuthTypes.VerifiedIdentity
      → Core × Result Failure (Unit {0})
  unfolding save_evidence is_verdict revoke
  settle core now saved (ok identity) =
      save_evidence core now
        (env.encode_evidence (record { identity = identity; proof = saved.proof }))
  settle core now saved (err error) = revoke core error (is_verdict error)

  unfoldable pub recheck_with :
      Core → ℕ → Evidence → Result Failure AuthTypes.AuthClient → Core × Result Failure (Unit {0})
  unfolding settle
  recheck_with core now saved (err failure) = (core, err failure)
  recheck_with core now saved (ok auth_client) =
      settle core now saved (recheck_identity env.auth auth_client saved.identity saved.proof now)

  unfoldable pub recheck : Core → ℕ → Result Failure Evidence → Core × Result Failure (Unit {0})
  unfolding client recheck_with
  recheck core now (err failure) = (core, err failure)
  recheck core now (ok saved) = recheck_with core now saved (client core)

  unfoldable pub authority : Core → ℕ → Core × Result Failure (Unit {0})
  unfolding is_cached saved_evidence recheck
  authority core now =
      let checked = recheck core now (saved_evidence core) in
      if not core.settings.enabled
      then (core, err disabled)
      else if is_cached core.checked_at now
      then (core, ok tt)
      else checked

  unfoldable pub grant : Core → Bytes → ℕ → Result Failure (Unit {0})
  unfolding hash
  grant core token now =
      if map_or false (ltb now) (get (hash token) core.grants) then ok tt else err sign_in_again

  -- `ConfigurationGuard::check`, by whether it accepts.
  abbrev fid_is : Option ℕ → ℕ → Bool
  fid_is none fid = false
  fid_is (some n) fid = n == fid

  abbrev check_bound : AccountSettings → Option CredentialTypes.Account → Result Bytes (Unit {0})
  check_bound settings none = ok tt
  check_bound settings (some bound) = do
    let refused = codes "The bound FID and service identity cannot be changed on this node"
    fail_if (not (fid_is settings.allowed_fid bound.fid)) refused
    made ←
        map_err (λ e. codes "A bound account needs its original service URL")
          (identity env settings)
    fail_if (not (same_identity made bound.identity)) refused

  unfoldable pub check : Core → AccountSettings → Result Bytes (Unit {0})
  check core settings = do
    map_err (λ e. codes "Invalid account configuration") (validate_settings env settings)
    loaded ← map_err (λ e. codes "Cannot read account binding") (account env.credentials core.store)
    check_bound settings loaded

-- The derived equality of settings.
abbrev same_fid : Option ℕ → Option ℕ → Bool
same_fid none none = true
same_fid (some m) (some n) = m == n
same_fid _ _ = false

abbrev same_bool : Bool → Bool → Bool
same_bool true b = b
same_bool false b = not b

unfoldable pub same_settings : AccountSettings → AccountSettings → Bool
same_settings a b =
    same_bool a.enabled b.enabled
    && a.service_url =? b.service_url
    && same_fid a.allowed_fid b.allowed_fid
    && a.optimism_rpc_url =? b.optimism_rpc_url

-- `ConfigurationGuard::apply`
unfoldable pub apply : Core → AccountSettings → Core
unfolding same_settings
apply core settings =
    if same_settings core.settings settings
    then core
    else record core { settings = settings; pending = []; grants = []; checked_at = none }
