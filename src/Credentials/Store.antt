-- ===== src/Credentials/Store.antt =====
-- `Store` of crates/psky-credentials/src/lib.rs: its account, bound and invalidated.
-- An operation returns the store that its transaction commits; an error commits nothing. The clock's
-- reading and random values are arguments.
pub mod Opening
pub mod Binding
use psky.Prelude.{
  ℕ, ◌-◌, ◌*◌, ◌^◌, Bool, true, false, not, ◌&&◌, ◌||◌, Option, none, some, Bytes, bytes_ord, ◌=?◌,
  Result, ok, err, ◌>>=◌, ◌>>◌, fail_if, ok_or, map_err, map_or, List, [], ◌∷◌, ◌++◌, ltb, ◌==◌,
  if◌then◌else◌, length,
}
use psky.Prelude.Text.{codes}
use psky.Json.{Value}
use psky.Repo.Records.{empty}
use psky.Repo.Repository
use psky.Repo.Repository.{Repository, signer_from_bytes, to_car}
use psky.Credentials.Types.{
  Error, invalid_input, invalid_token, invalid_credentials, not_bound, disabled, binding_conflict,
  persistence, Identity, Account, AccountRow, PasswordRow, SessionRow, Store, Env,
}
use psky.Credentials.Identity.{validate, valid_authority}
use psky.Credentials.Revision.{revision}
use psky.Credentials.Tokens.{did_document}

-- `map_err(|_| error)`
abbrev pub or_error : {E E' A : Type 0} → E' → Result E A → Result E' A
or_error e = map_err (λ _. e)

-- `Identity` equality, which is derived.
unfoldable pub same_identity : Identity → Identity → Bool
same_identity a b =
    a.handle =? b.handle
    && a.did =? b.did
    && a.service_url =? b.service_url
    && a.service_did =? b.service_did

-- `token_account_error`
unfoldable pub token_account_error : Error → Error
token_account_error persistence = persistence
token_account_error _ = invalid_token

-- The `map_err` of `verify_password`.
unfoldable pub password_account_error : Error → Error
password_account_error persistence = persistence
password_account_error _ = invalid_credentials

-- The condition under which a bound account refuses a binding.
unfoldable pub conflicts : Account → ℕ → Bytes → Identity → Bool
unfolding same_identity
conflicts account fid authority identity =
    not (account.fid == fid)
    || not (same_identity account.identity identity)
    || account.enabled && not (account.authority =? authority)

-- The condition on the arguments of `bind_verified`.
unfoldable pub binding_refused : ℕ → Bytes → Bool
binding_refused fid authority = fid == 0 || ltb (2 ^ 63 - 1) fid || not (valid_authority authority)

module _ (env : Env) where
  open env use {repo, encode_account, decode_account, base58_encode}

  unfoldable pub load_account : Option AccountRow → Result Error (Option Account)
  load_account none = ok none
  load_account (some row) =
      if ltb 8192 (length row.document)
      then err persistence
      else do account ← ok_or (decode_account row.document) persistence; ok (some account)

  unfoldable pub enabled_account : Store → Result Error Account
  unfolding load_account
  enabled_account store = do
    loaded ← load_account store.account
    account ← ok_or loaded not_bound
    fail_if (not account.enabled) disabled
    ok account

  unfoldable pub account : Store → Result Error (Option Account)
  account store = load_account store.account

  unfoldable pub set_evidence : Store → Bytes → Result Error Store
  set_evidence store document = do
    fail_if (length document == 0 || ltb (32 * 1024) (length document)) invalid_input
    bound ← enabled_account store
    ok (record {
      jwt_key = store.jwt_key;
      account = store.account;
      passwords = store.passwords;
      sessions = store.sessions;
      evidence = some document;
    })

  unfoldable pub evidence : Store → Result Error (Option Bytes)
  evidence store = do
    fail_if (map_or false (λ document. ltb (32 * 1024) (length document)) store.evidence)
        persistence
    ok store.evidence

  -- The row of the account in the store, with the same repository key.
  unfoldable pub update_account : Store → AccountRow → Account → Result Error Store
  update_account store row changed = do
    document ← ok_or (encode_account changed) persistence
    ok (record {
      jwt_key = store.jwt_key;
      account = some (record { document = document; repo_key = row.repo_key });
      passwords = store.passwords;
      sessions = store.sessions;
      evidence = store.evidence;
    })

  abbrev with_enabled : Account → Bytes → Bool → Account
  with_enabled account authority enabled = record {
    fid = account.fid;
    authority = authority;
    identity = account.identity;
    enabled = enabled;
    created_at = account.created_at;
    public_key_multibase = account.public_key_multibase;
    repo_revision = account.repo_revision;
    repo_cid = account.repo_cid;
  }

  -- `bind_verified` where an account is bound already.
  unfoldable pub bind_again :
      Store → AccountRow → Account → ℕ → Bytes → Identity → Result Error (Store × Account)
  unfolding conflicts
  bind_again store row account fid authority identity = do
    fail_if (conflicts account fid authority identity) binding_conflict
    updated ← update_account store row (with_enabled account authority true)
    ok (updated, with_enabled account authority true)

  -- `bind_verified` where no account is bound; `key` is random.
  unfoldable pub bind_first :
      Store → ℕ → Bytes → Identity → ℕ → Bytes → Result Error (Store × Account)
  bind_first store fid authority identity now key = do
    signer ← or_error persistence (signer_from_bytes repo key)
    built ← or_error invalid_input (Repository.build repo identity.did (revision now) empty signer)
    let fresh : Account = record {
      fid = fid;
      authority = authority;
      identity = identity;
      enabled = true;
      created_at = now;
      public_key_multibase = codes "z" ++ base58_encode (0xe7 ∷ 0x01 ∷ repo.public_key signer);
      repo_revision = revision now;
      repo_cid = repo.cid_string built.root;
    }
    document ← ok_or (encode_account fresh) persistence
    ok (
      record {
        jwt_key = store.jwt_key;
        account = some (record { document = document; repo_key = key });
        passwords = store.passwords;
        sessions = store.sessions;
        evidence = store.evidence;
      },
      fresh,
    )

  unfoldable pub bind_loaded :
      Store
      → Option AccountRow
      → Option Account
      → ℕ
      → Bytes
      → Identity
      → ℕ
      → Bytes
      → Result Error (Store × Account)
  bind_loaded store (some row) (some account) fid authority identity now key =
      bind_again store row account fid authority identity
  bind_loaded store _ _ fid authority identity now key =
      bind_first store fid authority identity now key

  unfoldable pub bind_verified :
      Store → ℕ → Bytes → Identity → ℕ → Bytes → Result Error (Store × Account)
  unfolding binding_refused
  bind_verified store fid authority identity now key = do
    validate env identity
    fail_if (binding_refused fid authority) invalid_input
    loaded ← load_account store.account
    bind_loaded store store.account loaded fid authority identity now key

  -- The delete of every password also deletes every session, by the foreign key.
  unfoldable pub disable : Store → AccountRow → Account → Result Error Store
  disable store row account = do
    updated ← update_account store row (with_enabled account account.authority false)
    ok (record {
      jwt_key = updated.jwt_key;
      account = updated.account;
      passwords = [];
      sessions = [];
      evidence = none;
    })

  unfoldable pub disable_loaded : Store → Option AccountRow → Option Account → Result Error Store
  disable_loaded store (some row) (some account) = disable store row account
  disable_loaded store _ _ = err not_bound

  unfoldable pub invalidate_authority : Store → Result Error Store
  invalidate_authority store = do
    loaded ← load_account store.account
    disable_loaded store store.account loaded
