-- ===== src/Credentials/Store/Opening.antt =====
-- The repository of the bound account, and `Store::open`, of crates/psky-credentials/src/lib.rs.
use psky.Prelude.{
  ℕ, not, ◌||◌, Option, none, some, Bytes, bytes_ord, ◌=?◌, Result, ok, err, ◌>>=◌, ◌>>◌, fail_if,
  ok_or, List, ltb, ◌==◌, if◌then◌else◌, length,
}
use psky.Json.{Value}
use psky.Repo.Records.{empty}
use psky.Repo.Repository
use psky.Repo.Repository.{Repository, signer_from_bytes, to_car}
use psky.Credentials.Types.{
  Error, not_bound, persistence, Account, AccountRow, PasswordRow, SessionRow, Store, Env,
}
use psky.Credentials.Identity.{validate, valid_authority}
use psky.Credentials.Tokens.{did_document}
use psky.Credentials.Store.{or_error, load_account}

-- The database file: the schema's version, the token key, and the rows.
pub record Disk : Type 0 where
  pub version : ℕ
  pub secret : Option Bytes
  pub account : Option AccountRow
  pub passwords : List PasswordRow
  pub sessions : List SessionRow
  pub evidence : Option Bytes

-- The token key that `open` reads, or the random one that it writes.
unfoldable pub token_key : Option Bytes → Bytes → Result Error Bytes
token_key none random = ok random
token_key (some key) random = if length key == 32 then ok key else err persistence

module _ (env : Env) where
  open env use {repo, encode_account, decode_account, base58_encode}

  unfoldable pub repository : Store → Result Error (Repository repo.Cid)
  repository store = do
    loaded ← load_account env store.account
    account ← ok_or loaded not_bound
    row ← ok_or store.account persistence
    fail_if (not (length row.repo_key == 32)) persistence
    signer ← or_error persistence (signer_from_bytes repo row.repo_key)
    or_error persistence
        (Repository.build repo account.identity.did account.repo_revision empty signer)

  unfoldable pub empty_repository : Store → Result Error Bytes
  empty_repository store = do built ← repository store; or_error persistence (to_car repo built)

  unfoldable pub bound_did_document : Store → Result Error Value
  bound_did_document store = do
    loaded ← load_account env store.account
    account ← ok_or loaded not_bound
    ok (did_document account)

  -- What `open` checks of an account.
  unfoldable pub check_account : Store → Account → Result Error (Unit {0})
  check_account store account = do
    or_error persistence (validate env account.identity)
    fail_if (account.fid == 0 || not (valid_authority account.authority)) persistence
    built ← repository store
    fail_if (not (repo.cid_string built.root =? account.repo_cid)) persistence

  unfoldable pub check_loaded : Store → Option Account → Result Error (Unit {0})
  check_loaded store none = ok tt
  check_loaded store (some account) = check_account store account

  -- `open` of a database file, with a random key for the tokens of a new one.
  unfoldable pub open_store : Disk → Bytes → Result Error Store
  open_store disk random = do
    fail_if (ltb 1 disk.version) persistence
    key ← token_key disk.secret random
    let store : Store = record {
      jwt_key = key;
      account = disk.account;
      passwords = disk.passwords;
      sessions = disk.sessions;
      evidence = disk.evidence;
    }
    loaded ← load_account env store.account
    check_loaded store loaded
    ok store
