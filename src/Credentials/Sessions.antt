-- ===== src/Credentials/Sessions.antt =====
-- The passwords and sessions of `Store` in crates/psky-credentials/src/lib.rs. Deleting a password
-- deletes its sessions, by the foreign key. Random values are arguments.
pub mod Validity
pub mod Accepted
pub mod Preservation
pub mod Renewal
pub mod Revocation
pub mod Steps
pub mod Login
use psky.Prelude.{
  ℕ, zero, suc, ◌+◌, Bool, true, false, not, ◌&&◌, ◌||◌, Option, none, some, Bytes, bytes_ord, ◌=?◌,
  Ordering, Result, ok, err, ◌>>=◌, ◌>>◌, fail_if, ok_or, map_err, is_some, List, [], ◌∷◌, ◌++◌,
  map, leb, ltb, ◌==◌, if◌then◌else◌, length, take, any, select,
}
use psky.Prelude.Text.{codes, starts_with}
use psky.Credentials.Types.{
  Error, invalid_input, invalid_token, invalid_credentials, limit, persistence, Account,
  PasswordInfo, IssuedPassword, SessionInfo, Session, Claims, PasswordRow, SessionRow, Store, Env,
}
use psky.Credentials.Identity.{valid_name}
use psky.Credentials.Tokens.{
  TokenKind, access, refresh, refresh_seconds, session_info, verify_token, create_session,
}
use psky.Credentials.Store.{enabled_account, token_account_error, password_account_error}

abbrev pub max_passwords : ℕ
max_passwords = 16

abbrev pub max_sessions : ℕ
max_sessions = 64

-- The store with other passwords and sessions.
abbrev pub with_rows : Store → List PasswordRow → List SessionRow → Store
with_rows store passwords sessions = record {
  jwt_key = store.jwt_key;
  account = store.account;
  passwords = passwords;
  sessions = sessions;
  evidence = store.evidence;
}

unfoldable pub has_password : Bytes → List PasswordRow → Bool
has_password name passwords = any (λ p. p.name =? name) passwords

-- `SELECT ... FROM sessions WHERE id=?1`
unfoldable pub find_session : Bytes → List SessionRow → Option SessionRow
find_session id [] = none
find_session id (s ∷ sessions) = if s.id =? id then some s else find_session id sessions

-- `ORDER BY created_at,name`
unfoldable pub comes_before : PasswordRow → PasswordRow → Bool
comes_before p q =
    ltb p.created_at q.created_at
    || p.created_at == q.created_at && (elim (bytes_ord.cmp p.name q.name) [
      | Ordering.lt ↦ true
      | Ordering.eq ↦ true
      | Ordering.gt ↦ false
    ])

unfoldable pub insert_ordered : PasswordRow → List PasswordRow → List PasswordRow
insert_ordered p [] = p ∷ []
insert_ordered p (q ∷ qs) =
    let rest = insert_ordered p qs in if comes_before p q then p ∷ q ∷ qs else q ∷ rest

unfoldable pub ordered : List PasswordRow → List PasswordRow
ordered [] = []
ordered (p ∷ ps) = insert_ordered p (ordered ps)

unfoldable pub list_passwords : Store → List PasswordInfo
list_passwords store =
    take 16
      (map (λ p. record { name = p.name; created_at = p.created_at }) (ordered store.passwords))

unfoldable pub revoke_password : Store → Bytes → Result Error Store
revoke_password store name = do
  fail_if (not (valid_name name)) invalid_input
  ok (
      with_rows store (select (λ p. not (p.name =? name)) store.passwords)
        (select (λ s. not (s.password_name =? name)) store.sessions))

-- `validate_session`
unfoldable pub session_refused : SessionRow → Claims → Bool → ℕ → Bool
session_refused row claims for_refresh now =
    leb row.refresh_exp now
    || for_refresh && (not (row.refresh_jti =? claims.jti) || not (row.refresh_exp == claims.exp))

unfoldable pub validate_session : List SessionRow → Claims → Bool → ℕ → Result Error (Unit {0})
validate_session sessions claims for_refresh now = do
  row ← ok_or (find_session claims.sid sessions) invalid_token
  fail_if (session_refused row claims for_refresh now) invalid_token

-- `INSERT INTO sessions`: the key must be new and the password must be there.
unfoldable pub insert_session : SessionRow → Store → Result Error Store
insert_session row store = do
  fail_if (is_some (find_session row.id store.sessions)) persistence
  fail_if (not (has_password row.password_name store.passwords)) persistence
  ok (with_rows store store.passwords (row ∷ store.sessions))

abbrev with_jti : SessionRow → Bytes → SessionRow
with_jti row jti = record {
  id = row.id;
  password_name = row.password_name;
  refresh_jti = jti;
  refresh_exp = row.refresh_exp;
}

-- `UPDATE sessions SET refresh_jti=?1 WHERE id=?2 AND refresh_jti=?3`, with the number of rows changed.
unfoldable pub rotate : Bytes → Bytes → Bytes → List SessionRow → List SessionRow × ℕ
rotate jti sid old [] = ([], 0)
rotate jti sid old (s ∷ sessions) =
    let rest = rotate jti sid old sessions in
    if s.id =? sid && s.refresh_jti =? old
    then (with_jti s jti ∷ rest.0, suc rest.1)
    else (s ∷ rest.0, rest.1)

-- `identifier.len() > 512 || password.len() != 48 || !password.starts_with("psky-")`
unfoldable pub credentials_malformed : Bytes → Bytes → Bool
credentials_malformed identifier password =
    ltb 512 (length identifier)
    || not (length password == 48)
    || not (starts_with (codes "psky-") password)

-- What a password's hash begins with; the text ends in a zero byte.
abbrev pub hash_prefix : Bytes
hash_prefix = codes "PurpleSky generated app password v1" ++ 0 ∷ []

module _ (env : Env) where
  unfoldable pub password_hash : Bytes → Bytes → Bytes
  password_hash salt password = env.repo.sha256 (hash_prefix ++ (salt ++ password))

  -- The loop over at most 16 rows, which keeps the last match.
  unfoldable pub match_password :
      Bytes → Option Bytes → List PasswordRow → Result Error (Option Bytes)
  unfolding password_hash
  match_password password matched [] = ok matched
  match_password password matched (p ∷ rows) = do
    fail_if (not (length p.salt == 32) || not (length p.verifier == 32)) persistence
    match_password password
        (if password_hash p.salt password =? p.verifier then some p.name else matched) rows

  unfoldable pub verify_password : Store → Bytes → Bytes → Result Error (Account × Bytes)
  unfolding credentials_malformed
  verify_password store identifier password = do
    fail_if (credentials_malformed identifier password) invalid_credentials
    account ← map_err password_account_error (enabled_account env store)
    matched ← match_password password none (take 16 store.passwords)
    fail_if
        (not (identifier =? account.identity.handle) && not (identifier =? account.identity.did))
        invalid_credentials
    name ← ok_or matched invalid_credentials
    ok (account, name)

  unfoldable pub validate_password : Store → Bytes → Bytes → Result Error (Unit {0})
  validate_password store identifier password = do
    (account, name) ← verify_password store identifier password
    ok tt

  unfoldable pub issue_password :
      Store → Bytes → ℕ → Bytes → Bytes → Result Error (Store × IssuedPassword)
  unfolding password_hash
  issue_password store name now random salt = do
    fail_if (not (valid_name name)) invalid_input
    bound ← enabled_account env store
    fail_if (leb max_passwords (length store.passwords)) limit
    fail_if (has_password name store.passwords) invalid_input
    let password = codes "psky-" ++ env.base64_encode random
    let row : PasswordRow = record {
      name = name;
      salt = salt;
      verifier = password_hash salt password;
      created_at = now;
    }
    ok (
      with_rows store (row ∷ store.passwords) store.sessions,
      record { info = record { name = name; created_at = now }; password = password },
    )

  unfoldable pub authenticate :
      Store → Bytes → Bytes → ℕ → Bytes → Bytes → Bytes → Result Error (Store × Session)
  unfolding credentials_malformed
  authenticate store identifier password now sid refresh_jti access_jti = do
    fail_if (credentials_malformed identifier password) invalid_credentials
    (account, name) ← verify_password store identifier password
    let live = select (λ s. ltb now s.refresh_exp) store.sessions
    fail_if (leb max_sessions (length live)) limit
    let expires = now + refresh_seconds
    session ← create_session env store.jwt_key account sid refresh_jti access_jti now expires
    next ←
        insert_session
          (record {
            id = sid;
            password_name = name;
            refresh_jti = refresh_jti;
            refresh_exp = expires;
          })
          (with_rows store store.passwords live)
    ok (next, session)

  unfoldable pub get_session : Store → Bytes → ℕ → Result Error SessionInfo
  get_session store token now = do
    account ← map_err token_account_error (enabled_account env store)
    claims ← verify_token env store.jwt_key token account access now
    validate_session store.sessions claims false now
    ok (session_info account)

  -- The account and the claims of a refresh token that is accepted: the checks with which
  -- `validate_refresh`, `refresh_session` and `delete_session` begin.
  unfoldable pub accept_refresh : Store → Bytes → ℕ → Result Error (Account × Claims)
  accept_refresh store token now = do
    account ← map_err token_account_error (enabled_account env store)
    claims ← verify_token env store.jwt_key token account refresh now
    validate_session store.sessions claims true now
    ok (account, claims)

  unfoldable pub validate_refresh : Store → Bytes → ℕ → Result Error SessionInfo
  validate_refresh store token now = do
    (account, claims) ← accept_refresh store token now
    ok (session_info account)

  unfoldable pub refresh_session :
      Store → Bytes → ℕ → Bytes → Bytes → Result Error (Store × Session)
  refresh_session store token now jti access_jti = do
    (account, claims) ← accept_refresh store token now
    session ← create_session env store.jwt_key account claims.sid jti access_jti now claims.exp
    let rotated = rotate jti claims.sid claims.jti store.sessions
    fail_if (not (rotated.1 == 1)) invalid_token
    ok (with_rows store store.passwords rotated.0, session)

  unfoldable pub delete_session : Store → Bytes → ℕ → Result Error Store
  delete_session store token now = do
    (account, claims) ← accept_refresh store token now
    ok (with_rows store store.passwords (select (λ s. not (s.id =? claims.sid)) store.sessions))
