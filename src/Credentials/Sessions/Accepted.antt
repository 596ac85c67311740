-- ===== src/Credentials/Sessions/Accepted.antt =====
-- What an accepted token is known to be.
use mathlib.Core.Path.{subst}
use psky.Prelude.{
  ℕ, ◌≡◌, ◌≢◌, refl, sym, ◌∙◌, true, false, not, ◌||◌, Option, none, some, Bytes, bytes_ord, ◌=?◌,
  =?_iff, ok, map_err, ok_or, and_then, on_ok, on_pass, arith, List, [], ◌∷◌, select, leb, ltb,
  length, >>=-eq-ok, ◌++◌, ap,
}
use psky.Prelude.Text.{codes, split}
use psky.Credentials.Types.{
  invalid_token, persistence, Account, Claims, SessionRow, Store, Env, SessionInfo,
}
use psky.Credentials.Tokens.{
  TokenKind, access, refresh, typ, verify_token, three_parts, claims_refused,
}
use psky.Credentials.Store.{enabled_account, token_account_error}
use psky.Credentials.Sessions.{
  with_jti, find_session, validate_session, session_refused, rotate, accept_refresh,
  validate_refresh, get_session,
}

pub find-rotate :
    (jti sid old : Bytes) (sessions : List SessionRow) (row : SessionRow)
    → find_session sid sessions ≡ some row
    → row.refresh_jti ≡ old
    → find_session sid (rotate jti sid old sessions).0 ≡ some (with_jti row jti)
unfolding find_session rotate
find-rotate jti sid old [] row h k = absurd (ground arith)
find-rotate jti sid old (s ∷ sessions) row h k =
    ground (arith, find-rotate jti sid old sessions row, =?_iff s.refresh_jti old)

pub find-select :
    (sid : Bytes) (sessions : List SessionRow)
    → find_session sid (select (λ s. not (s.id =? sid)) sessions) ≡ none
unfolding find_session
find-select sid [] = refl
find-select sid (s ∷ sessions) = ground (arith, find-select sid sessions)

pub no_session :
    (sid : Bytes) (sessions : List SessionRow) (row : SessionRow)
    → sessions ≡ []
    → find_session sid sessions ≢ some row
unfolding find_session
no_session sid sessions row e h = ground (arith, e, h)

-- What `validate_session` has seen.
pub validate_session-eq :
    (sessions : List SessionRow) (claims : Claims) (for_refresh : _) (now : ℕ)
    → validate_session sessions claims for_refresh now ≡ ok tt
    → (row : SessionRow) × (find_session claims.sid sessions ≡ some row)
      × (session_refused row claims for_refresh now ≡ false)
unfolding validate_session
validate_session-eq sessions claims for_refresh now h =
    let (row, found, passed) =
      >>=-eq-ok (ok_or (find_session claims.sid sessions) invalid_token) _ h in
    (row, ground (arith, found), ground (arith, passed))

pub some-injective : {A : Type 0} {a b : A} → ◌≡◌ {A = Option A} (some a) (some b) → a ≡ b
some-injective h = cc h

module _ (env : Env) where
  -- What a token claims, whoever signed it.
  unfoldable pub token_claims : Bytes → Option Claims
  token_claims token = elim (three_parts (split b'.' token)) [
    | none ↦ none
    | some (header, body, signature) ↦ and_then (env.base64_decode body) env.decode_claims
  ]

  pub verify_token-token_claims :
      (key token : Bytes) (account : Account) (kind : TokenKind) (now : ℕ) (claims : Claims)
      → verify_token env key token account kind now ≡ ok claims
      → token_claims token ≡ some claims
  unfolding verify_token token_claims
  verify_token-token_claims key token account kind now claims h =
      on_pass (ltb 4096 (length token)) _ _ h λ _ h1.
        on_ok (ok_or (three_parts (split b'.' token)) invalid_token) _ h1
          λ (header, body, signature) parts h2.
            on_ok (ok_or (env.base64_decode signature) invalid_token) _ h2 λ given _ h3.
              on_ok (ok_or (env.hmac key (header ++ b'.' ∷ body)) persistence) _ h3 λ mac _ h4.
                on_pass (not (mac =? given)) _ _ h4 λ _ h5.
                  on_ok (ok_or (env.base64_decode header) invalid_token) _ h5 λ header_bytes _ h6.
                    on_ok (ok_or (env.decode_header header_bytes) invalid_token) _ h6 λ head _ h7.
                      on_pass (not (head.alg =? codes "HS256") || not (head.typ =? typ kind)) _ _ h7
                        λ _ h8.
                          on_ok (ok_or (env.base64_decode body) invalid_token) _ h8
                            λ body_bytes decoded h9.
                              on_ok (ok_or (env.decode_claims body_bytes) invalid_token) _ h9
                                λ c read h10.
                                  on_pass (claims_refused account kind now c) _ _ h10 λ _ h11.
                                    on_pass (leb c.exp now) _ _ h11
                                      λ _ h12. ground (arith, parts, decoded, read, h12)

  -- What an accepted refresh token is known to be: its claims are those of a live session.
  pub record Accepted (store : Store) (token : Bytes) (now : ℕ) (claims : Claims) : Type 0 where
    pub says : token_claims token ≡ some claims
    pub row : SessionRow
    pub found : find_session claims.sid store.sessions ≡ some row
    pub live : session_refused row claims true now ≡ false

  pub accept_refresh-Accepted :
      (store : Store) (token : Bytes) (now : ℕ) (account : Account) (claims : Claims)
      → accept_refresh env store token now ≡ ok (account, claims)
      → Accepted store token now claims
  unfolding accept_refresh
  accept_refresh-Accepted store token now account claims h =
      on_ok (map_err token_account_error (enabled_account env store)) _ h λ a _ h1.
        on_ok (verify_token env store.jwt_key token a refresh now) _ h1 λ c verified h2.
          on_ok (validate_session store.sessions c true now) _ h2 λ _ valid h3.
            let (row, found, live) = validate_session-eq store.sessions c true now valid in
            let same : c ≡ claims = cc h3 in
            subst (Accepted store token now) same (record {
              says = verify_token-token_claims store.jwt_key token a refresh now c verified;
              row = row;
              found = found;
              live = live;
            })

  pub Accepted-rotate :
      (store next : Store) (token jti : Bytes) (now later : ℕ) (claims claims' : Claims)
      → Accepted store token now claims
      → next.sessions ≡ (rotate jti claims.sid claims.jti store.sessions).0
      → claims.jti ≢ jti
      → ¬ Accepted next token later claims'
  unfolding session_refused
  Accepted-rotate store next token jti now later claims claims' old rows fresh new =
      let same : claims ≡ claims' = cc (old.says, new.says) in
      let current : old.row.refresh_jti ≡ claims.jti =
        ground (arith, old.live, =?_iff old.row.refresh_jti claims.jti) in
      let moved : find_session claims.sid next.sessions ≡ some (with_jti old.row jti) =
        rw rows (find-rotate jti claims.sid claims.jti store.sessions old.row old.found current) in
      let here : new.row ≡ with_jti old.row jti =
        some-injective (sym new.found ∙ rw (← same) moved) in
      fresh (
        ground (
          arith,
          new.live,
          same,
          here,
          ap (λ (r : SessionRow). r.refresh_jti) here,
          ap (λ (c : Claims). c.jti) same,
          =?_iff new.row.refresh_jti claims'.jti,
        ))

  -- A session that is shown belongs to a token whose session is there.
  pub get_session-found :
      (store : Store) (token : Bytes) (now : ℕ) (info : SessionInfo)
      → get_session env store token now ≡ ok info
      → (claims : Claims) × (token_claims token ≡ some claims)
        × (row : SessionRow) × (find_session claims.sid store.sessions ≡ some row)
  unfolding get_session
  get_session-found store token now info h =
      on_ok (map_err token_account_error (enabled_account env store)) _ h λ a _ h1.
        on_ok (verify_token env store.jwt_key token a access now) _ h1 λ c verified h2.
          on_ok (validate_session store.sessions c false now) _ h2 λ _ valid h3.
            let (row, found, _) = validate_session-eq store.sessions c false now valid in
            (c, verify_token-token_claims store.jwt_key token a access now c verified, row, found)

  pub validate_refresh-Accepted :
      (store : Store) (token : Bytes) (now : ℕ) (info : SessionInfo)
      → validate_refresh env store token now ≡ ok info
      → (claims : Claims) × Accepted store token now claims
  unfolding validate_refresh
  validate_refresh-Accepted store token now info h =
      on_ok (accept_refresh env store token now) _ h λ (account, claims) again _.
        (claims, accept_refresh-Accepted store token now account claims again)
