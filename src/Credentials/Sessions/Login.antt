-- ===== src/Credentials/Sessions/Login.antt =====
-- A login gives tokens that open the session.
use mathlib.Core.Path.{subst}
use psky.Prelude.{
  ℕ, ◌+◌, ◌≤◌, ◌<◌, ◌≡◌, refl, sym, ap, ◌∙◌, true, false, none, some, Bytes, bytes_ord, =?_refl, ok,
  on_ok, on_pass, map_err, ok-injective, arith, leb, ltb, length, select, take, min, all,
}
use psky.Prelude.Text.{is_ascii_hexdigit}
use psky.Credentials.Types.{Account, SessionRow, Store, Env, Session, Claims}
use psky.Credentials.Tokens.{
  TokenKind, access, access_seconds, refresh_seconds, sign_token, claims_for, claims_refused,
  create_session, session_info, verify_token, scope, lifetime,
}
use psky.Credentials.Tokens.Signing.{Laws, verify_token-sign_token}
use psky.Credentials.Store.{enabled_account, password_account_error}
use psky.Credentials.Sessions.{
  with_rows, find_session, validate_session, session_refused, insert_session, max_sessions,
  verify_password, match_password, credentials_malformed, authenticate, get_session,
}

-- What the program draws as an identifier: 64 hexadecimal digits.
abbrev pub IsId : Bytes → Type 0
IsId s = (length s ≡ 64) × (all is_ascii_hexdigit s ≡ true)

pub claims_for-accepted :
    (account : Account) (sid jti : Bytes) (now exp later : ℕ) (kind : TokenKind)
    → IsId sid
    → IsId jti
    → now ≤ later
    → now < exp
    → exp ≤ now + lifetime kind
    → claims_refused account kind later (claims_for account sid now kind jti exp) ≡ false
unfolding claims_refused claims_for
claims_for-accepted account sid jti now exp later kind s j h k l = ground (
  arith,
  =?_refl account.identity.did,
  =?_refl account.identity.service_did,
  =?_refl (scope kind),
  s,
  j,
)

find_session-insert_session :
    (row : SessionRow) (store next : Store)
    → insert_session row store ≡ ok next
    → (find_session row.id next.sessions ≡ some row)
      × (next.account ≡ store.account)
      × (next.jwt_key ≡ store.jwt_key)
unfolding insert_session find_session
find_session-insert_session row store next h = ground (arith, =?_refl row.id)

module _ (env : Env) where
  pub enabled_account-eq :
      (store next : Store)
      → next.account ≡ store.account
      → enabled_account env next ≡ enabled_account env store
  unfolding enabled_account
  enabled_account-eq store next e = rw e refl

  verify_password-account :
      (store : Store) (identifier password name : Bytes) (account : Account)
      → verify_password env store identifier password ≡ ok (account, name)
      → enabled_account env store ≡ ok account
  unfolding verify_password
  verify_password-account store identifier password name account h =
      on_pass (credentials_malformed identifier password) _ _ h λ _ h1.
        on_ok (map_err password_account_error (enabled_account env store)) _ h1 λ a e h2.
          on_ok (match_password env password none (take 16 store.passwords)) _ h2
            λ matched _ h3. ground (arith, e, h3)

  create_session-eq :
      (key sid refresh_jti access_jti : Bytes) (account : Account) (now exp : ℕ) (session : Session)
      → create_session env key account sid refresh_jti access_jti now exp ≡ ok session
      → (sign_token env key
            (claims_for account sid now access access_jti (min (now + access_seconds) exp))
            access
          ≡ ok session.access_jwt)
        × (session.info ≡ session_info account)
  unfolding create_session
  create_session-eq key sid refresh_jti access_jti account now exp session h = ground arith

  get_session-ok :
      (store : Store) (token : Bytes) (account : Account) (claims : Claims) (row : SessionRow)
      (now : ℕ)
      → enabled_account env store ≡ ok account
      → verify_token env store.jwt_key token account access now ≡ ok claims
      → find_session claims.sid store.sessions ≡ some row
      → now < row.refresh_exp
      → get_session env store token now ≡ ok (session_info account)
  unfolding get_session validate_session session_refused
  get_session-ok store token account claims row now bound verified found live =
      rw (bound, verified, found) (ground arith)

  module _ (laws : Laws env) where
    -- If the environment keeps its laws, the drawn identifiers are 64 hexadecimal digits and
    -- the access token is not too long: after a successful login that token shows the session
    -- that the login returned, for as long as an access token lives.
    pub get_session-authenticate :
        (store next : Store) (identifier password sid refresh_jti access_jti : Bytes)
        (now later : ℕ) (session : Session)
        → authenticate env store identifier password now sid refresh_jti access_jti
          ≡ ok (next, session)
        → IsId sid
        → IsId access_jti
        → length session.access_jwt ≤ 4096
        → now ≤ later
        → later < now + access_seconds
        → get_session env next session.access_jwt later ≡ ok session.info
    unfolding authenticate
    get_session-authenticate store next identifier password sid refresh_jti access_jti now later
          session h s j short begun live =
        let kept = select (λ (r : SessionRow). ltb now r.refresh_exp) store.sessions in
        let expires = now + refresh_seconds in
        on_pass (credentials_malformed identifier password) _ _ h λ _ h1.
          on_ok (verify_password env store identifier password) _ h1 λ (account, name) verified h2.
            let row : SessionRow = record {
              id = sid;
              password_name = name;
              refresh_jti = refresh_jti;
              refresh_exp = expires;
            } in
            on_pass (leb max_sessions (length kept)) _ _ h2 λ room h3.
              on_ok
                (create_session env store.jwt_key account sid refresh_jti access_jti now expires) _
                h3
                λ made created h4.
                  on_ok (insert_session row (with_rows store store.passwords kept)) _ h4
                    λ u inserted h5.
                      let (found, same_account, same_key) =
                        find_session-insert_session row (with_rows store store.passwords kept) u
                          inserted in
                      let (signed, shown) =
                        create_session-eq store.jwt_key sid refresh_jti access_jti account now
                          expires made created in
                      let here : made ≡ session =
                        ap (λ (w : Store × Session). w.1) (ok-injective h5) in
                      let there : u ≡ next = ap (λ (w : Store × Session). w.0) (ok-injective h5) in
                      subst
                        (λ (n : Store).
                          get_session env n session.access_jwt later ≡ ok session.info)
                        there
                        (subst
                          (λ (m : Session).
                            length m.access_jwt ≤ 4096
                            → get_session env u m.access_jwt later ≡ ok m.info)
                          here
                          (λ fits.
                            get_session-ok u made.access_jwt account
                              (claims_for account sid now access access_jti
                                (min (now + access_seconds) expires))
                              row later
                              (enabled_account-eq store u same_account
                                ∙ verify_password-account store identifier password name account
                                    verified)
                              (rw same_key (
                                verify_token-sign_token env laws store.jwt_key made.access_jwt
                                  account access later _ signed fits
                                  (claims_for-accepted account sid access_jti now _ later access s j
                                    begun (omega arith) (unfold lifetime in omega arith))
                                  (unfold claims_for in omega arith)))
                              (unfold claims_for in found) (omega arith)
                            ∙ ap ok (sym shown))
                          short)
