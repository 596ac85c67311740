-- ===== src/Credentials/Sessions/Renewal.antt =====
-- A rotation gives a refresh token that carries on the session.
use mathlib.Core.Path.{subst}
use psky.Prelude.{
  ℕ, ◌+◌, ◌≤◌, ◌<◌, ◌≡◌, refl, sym, ap, ◌∙◌, true, false, not, ◌||◌, some, Bytes, bytes_ord, ◌=?◌,
  =?_iff, ok, on_ok, on_pass, ok_or, map_err, ok-injective, arith, ◌∷◌, ◌++◌, ◌==◌, ==_iff, leb,
  ltb, length,
}
use psky.Prelude.Text.{codes, split}
use psky.Credentials.Types.{
  invalid_token, persistence, Account, SessionRow, Store, Env, Session, Claims,
}
use psky.Credentials.Tokens.{
  TokenKind, refresh, typ, sign_token, claims_for, claims_refused, create_session, session_info,
  verify_token, lifetime, three_parts,
}
use psky.Credentials.Tokens.Signing.{Laws, verify_token-sign_token}
use psky.Credentials.Store.{enabled_account, token_account_error}
use psky.Credentials.Sessions.{
  with_rows, with_jti, find_session, rotate, validate_session, session_refused, accept_refresh,
  validate_refresh, refresh_session,
}
use psky.Credentials.Sessions.Accepted.{
  token_claims, accept_refresh-Accepted, find-rotate, some-injective,
}
use psky.Credentials.Sessions.Login.{IsId, claims_for-accepted, enabled_account-eq}

-- What the checks of a token's claims have established.
claims_refused-checks :
    (account : Account) (kind : TokenKind) (now : ℕ) (claims : Claims)
    → claims_refused account kind now claims ≡ false
    → IsId claims.sid × (claims.iat ≤ now) × (claims.exp ≤ claims.iat + lifetime kind)
unfolding claims_refused
claims_refused-checks account kind now claims h = (
  (ground (arith, h, ==_iff (length claims.sid) 64), ground (arith, h)),
  ground (arith, h),
  ground (arith, h),
)

module _ (env : Env) where
  verify_token-checks :
      (key token : Bytes) (account : Account) (kind : TokenKind) (now : ℕ) (claims : Claims)
      → verify_token env key token account kind now ≡ ok claims
      → (claims_refused account kind now claims ≡ false) × (now < claims.exp)
  unfolding verify_token
  verify_token-checks key token account kind now claims h =
      on_pass (ltb 4096 (length token)) _ _ h λ _ h1.
        on_ok (ok_or (three_parts (split b'.' token)) invalid_token) _ h1
          λ (header, body, signature) _ h2.
            on_ok (ok_or (env.base64_decode signature) invalid_token) _ h2 λ given _ h3.
              on_ok (ok_or (env.hmac key (header ++ b'.' ∷ body)) persistence) _ h3 λ mac _ h4.
                on_pass (not (mac =? given)) _ _ h4 λ _ h5.
                  on_ok (ok_or (env.base64_decode header) invalid_token) _ h5 λ header_bytes _ h6.
                    on_ok (ok_or (env.decode_header header_bytes) invalid_token) _ h6 λ head _ h7.
                      on_pass (not (head.alg =? codes "HS256") || not (head.typ =? typ kind)) _ _ h7
                        λ _ h8.
                          on_ok (ok_or (env.base64_decode body) invalid_token) _ h8
                            λ body_bytes _ h9.
                              on_ok (ok_or (env.decode_claims body_bytes) invalid_token) _ h9
                                λ c _ h10.
                                  on_pass (claims_refused account kind now c) _ _ h10 λ good h11.
                                    on_pass (leb c.exp now) _ _ h11 λ live h12.
                                      let same : c ≡ claims = ok-injective h12 in
                                      subst
                                        (λ (d : Claims).
                                          (claims_refused account kind now d ≡ false)
                                          × (now < d.exp))
                                        same (good, ground (arith, live))

  accept_refresh-checks :
      (store : Store) (token : Bytes) (now : ℕ) (account : Account) (claims : Claims)
      → accept_refresh env store token now ≡ ok (account, claims)
      → (enabled_account env store ≡ ok account)
        × (claims_refused account refresh now claims ≡ false)
        × (now < claims.exp)
  unfolding accept_refresh
  accept_refresh-checks store token now account claims h =
      on_ok (map_err token_account_error (enabled_account env store)) _ h λ a bound h1.
        on_ok (verify_token env store.jwt_key token a refresh now) _ h1 λ c verified h2.
          on_ok (validate_session store.sessions c true now) _ h2 λ _ _ h3.
            let (good, live) = verify_token-checks store.jwt_key token a refresh now c verified in
            let same : (a, c) ≡ (account, claims) = ok-injective h3 in
            subst
              (λ (w : Account × Claims).
                (enabled_account env store ≡ ok w.0)
                × (claims_refused w.0 refresh now w.1 ≡ false)
                × (now < w.1.exp))
              same (ground (arith, bound), good, live)

  create_session-refresh :
      (key sid refresh_jti access_jti : Bytes) (account : Account) (now exp : ℕ) (session : Session)
      → create_session env key account sid refresh_jti access_jti now exp ≡ ok session
      → (sign_token env key (claims_for account sid now refresh refresh_jti exp) refresh
          ≡ ok session.refresh_jwt)
        × (session.info ≡ session_info account)
  unfolding create_session
  create_session-refresh key sid refresh_jti access_jti account now exp session h = ground arith

  validate_refresh-ok :
      (store : Store) (token : Bytes) (account : Account) (claims : Claims) (row : SessionRow)
      (now : ℕ)
      → enabled_account env store ≡ ok account
      → verify_token env store.jwt_key token account refresh now ≡ ok claims
      → find_session claims.sid store.sessions ≡ some row
      → row.refresh_jti ≡ claims.jti
      → row.refresh_exp ≡ claims.exp
      → now < row.refresh_exp
      → validate_refresh env store token now ≡ ok (session_info account)
  unfolding validate_refresh accept_refresh validate_session session_refused
  validate_refresh-ok store token account claims row now bound verified found same_jti same_exp
        live =
      rw (bound, verified, found)
        (ground (arith, =?_iff row.refresh_jti claims.jti, ==_iff row.refresh_exp claims.exp))

  renewed :
      (laws : Laws env) (store next : Store) (token jti : Bytes) (now later : ℕ) (account : Account)
      (claims : Claims) (session : Session)
      → accept_refresh env store token now ≡ ok (account, claims)
      → next.account ≡ store.account
      → next.jwt_key ≡ store.jwt_key
      → next.sessions ≡ (rotate jti claims.sid claims.jti store.sessions).0
      → sign_token env store.jwt_key
          (claims_for account claims.sid now refresh jti claims.exp)
          refresh
        ≡ ok session.refresh_jwt
      → session.info ≡ session_info account
      → IsId jti
      → length session.refresh_jwt ≤ 4096
      → now ≤ later
      → later < claims.exp
      → validate_refresh env next session.refresh_jwt later ≡ ok session.info
  unfolding claims_for session_refused
  renewed laws store next token jti now later account claims session accepted same_account same_key
        rows signed shown id short begun live =
      let (bound, good, _) = accept_refresh-checks store token now account claims accepted in
      let (sid, before, within) = claims_refused-checks account refresh now claims good in
      let old = accept_refresh-Accepted env store token now account claims accepted in
      let same_exp : old.row.refresh_exp ≡ claims.exp =
        ground (arith, old.live, ==_iff old.row.refresh_exp claims.exp) in
      let current : old.row.refresh_jti ≡ claims.jti =
        ground (arith, old.live, =?_iff old.row.refresh_jti claims.jti) in
      validate_refresh-ok next session.refresh_jwt account
        (claims_for account claims.sid now refresh jti claims.exp) (with_jti old.row jti) later
        (enabled_account-eq env store next same_account ∙ bound)
        (rw same_key (
          verify_token-sign_token env laws store.jwt_key session.refresh_jwt account refresh later _
            signed short
            (claims_for-accepted account claims.sid jti now claims.exp later refresh sid id begun
              (omega arith) (omega arith))
            live))
        (rw rows (find-rotate jti claims.sid claims.jti store.sessions old.row old.found current))
        refl same_exp (omega (arith, same_exp))
      ∙ ap ok (sym shown)

  -- If the environment keeps its laws, the drawn identifier is 64 hexadecimal digits and the new refresh
  -- token is not too long: after a rotation that token is accepted, and shows the session that the
  -- rotation returned, until the end that the old token claimed.
  pub validate_refresh-renewed :
      (laws : Laws env) (store next : Store) (token jti access_jti : Bytes) (now later : ℕ)
      (claims : Claims) (session : Session)
      → refresh_session env store token now jti access_jti ≡ ok (next, session)
      → token_claims env token ≡ some claims
      → IsId jti
      → length session.refresh_jwt ≤ 4096
      → now ≤ later
      → later < claims.exp
      → validate_refresh env next session.refresh_jwt later ≡ ok session.info
  unfolding refresh_session
  validate_refresh-renewed laws store next token jti access_jti now later claims session h says id
        short begun live =
      on_ok (accept_refresh env store token now) _ h λ (account, c) accepted h1.
        on_ok (create_session env store.jwt_key account c.sid jti access_jti now c.exp) _ h1
          λ made created h2.
            on_pass (not ((rotate jti c.sid c.jti store.sessions).1 == 1)) _ _ h2 λ _ h3.
              let old = accept_refresh-Accepted env store token now account c accepted in
              let known : claims ≡ c = some-injective (sym says ∙ old.says) in
              let (signed, shown) =
                create_session-refresh store.jwt_key c.sid jti access_jti account now c.exp made
                  created in
              let there : (
                with_rows store store.passwords (rotate jti c.sid c.jti store.sessions).0,
                made,
              )
                  ≡ (next, session) =
                ok-injective h3 in
              subst
                (λ (w : Store × Session).
                  length w.1.refresh_jwt ≤ 4096
                  → validate_refresh env w.0 w.1.refresh_jwt later ≡ ok w.1.info)
                there
                (λ fits.
                  renewed laws store
                    (with_rows store store.passwords (rotate jti c.sid c.jti store.sessions).0)
                    token jti now later account c made accepted refl refl refl signed shown id fits
                    begun (subst (λ (d : Claims). later < d.exp) known live))
                short
