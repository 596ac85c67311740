-- ===== src/Credentials/Sessions/Revocation.antt =====
-- Tokens that no longer open a session: after a rotation, a logout, a revocation and an invalidation.
use mathlib.Core.Path.{subst}
use psky.Prelude.{
  ℕ, ◌≡◌, ◌≢◌, refl, sym, ◌∙◌, not, false, none, some, Bytes, bytes_ord, ◌=?◌, =?_iff, ok, map_err,
  on_ok, on_pass, arith, List, [], ◌∷◌, ◌==◌, select, take, ap, ok-injective, Bool-cases, inl, inr,
}
use psky.Credentials.Types.{Claims, PasswordRow, SessionRow, Store, Env, Session, SessionInfo}
use psky.Credentials.Identity.{valid_name}
use psky.Credentials.Tokens.{create_session}
use psky.Credentials.Store.{
  enabled_account, password_account_error, disable, disable_loaded, invalidate_authority,
}
use psky.Credentials.Sessions.{
  with_rows, has_password, revoke_password, find_session, rotate, accept_refresh, validate_refresh,
  refresh_session, delete_session, get_session, validate_password, verify_password, match_password,
  credentials_malformed,
}
use psky.Credentials.Sessions.Validity.{IsValid, AreKeyed, find_session-select}
use psky.Credentials.Sessions.Accepted.{
  find-select, no_session, some-injective, token_claims, accept_refresh-Accepted, Accepted-rotate,
  get_session-found, validate_refresh-Accepted,
}

find_session-revoked :
    (id name : Bytes) (ss : List SessionRow) (row : SessionRow)
    → AreKeyed ss
    → find_session id ss ≡ some row
    → row.password_name ≡ name
    → find_session id (select (λ s. not (s.password_name =? name)) ss) ≡ none
unfolding find_session
find_session-revoked id name [] row k h e = refl
find_session-revoked id name (s ∷ ss) row k h e = elim (Bool-cases (s.id =? id)) [
  | inl same ↦
      let gone : find_session id ss ≡ none =
        subst (λ i. find_session i ss ≡ none) ((=?_iff s.id id).0 same) k.0 in
      ground (
        arith,
        find_session-select (λ r. not (r.password_name =? name)) id ss gone,
        =?_iff s.password_name name,
      )
  | inr other ↦ ground (arith, find_session-revoked id name ss row k.1)
]

has_password-revoked :
    (name : Bytes) (ps : List PasswordRow)
    → has_password name (select (λ p. not (p.name =? name)) ps) ≡ false
unfolding has_password
has_password-revoked name [] = refl
has_password-revoked name (p ∷ ps) = ground (arith, has_password-revoked name ps)

module _ (env : Env) where
  -- A refresh token that has been rotated is never accepted again in the store that results, if
  -- the identifier that was drawn is not the one in the token.
  pub validate_refresh-refresh_session :
      (store next : Store) (token jti access_jti : Bytes) (now : ℕ) (session : Session)
      → refresh_session env store token now jti access_jti ≡ ok (next, session)
      → ((claims : Claims) → token_claims env token ≡ some claims → claims.jti ≢ jti)
      → (later : ℕ) (info : SessionInfo) → validate_refresh env next token later ≢ ok info
  unfolding refresh_session validate_refresh
  validate_refresh-refresh_session store next token jti access_jti now session h fresh later info
        k =
      on_ok (accept_refresh env store token now) _ h λ (account, claims) accepted h1.
        on_ok (create_session env store.jwt_key account claims.sid jti access_jti now claims.exp) _
          h1
          λ made _ h2.
            on_pass (not ((rotate jti claims.sid claims.jti store.sessions).1 == 1)) _ _ h2 λ _ h3.
              on_ok (accept_refresh env next token later) _ k λ (account', claims') again _.
                let old = accept_refresh-Accepted env store token now account claims accepted in
                let rows : with_rows store store.passwords
                      (rotate jti claims.sid claims.jti store.sessions).0
                    ≡ next =
                  ap (λ (w : Store × Session). w.0) (ok-injective h3) in
                Accepted-rotate env store next token jti now later claims claims' old
                  (ap (λ (s : Store). s.sessions) (sym rows)) (fresh claims old.says)
                  (accept_refresh-Accepted env next token later account' claims' again)

  -- After a logout no token that names the session of the refresh token is accepted again,
  -- neither to show the session nor to refresh it, in the store that results.
  pub get_session-delete_session :
      (store next : Store) (token other : Bytes) (now : ℕ) (claims others : Claims)
      → delete_session env store token now ≡ ok next
      → token_claims env token ≡ some claims
      → token_claims env other ≡ some others
      → others.sid ≡ claims.sid
      → (later : ℕ) (info : SessionInfo)
      → (get_session env next other later ≢ ok info)
        × (validate_refresh env next other later ≢ ok info)
  unfolding delete_session
  get_session-delete_session store next token other now claims others h says names same later info =
      on_ok (accept_refresh env store token now) _ h λ (account, c) accepted h1.
        let old = accept_refresh-Accepted env store token now account c accepted in
        let known : c ≡ claims = some-injective (sym old.says ∙ says) in
        let rows : next.sessions ≡ select (λ s. not (s.id =? c.sid)) store.sessions =
          ap (λ (s : Store). s.sessions) (sym (ok-injective h1)) in
        let gone : find_session others.sid next.sessions ≡ none =
          rw (same, rows, ← known) (find-select c.sid store.sessions) in
        (
          λ k.
              let (d, said, row, found) = get_session-found env next other later info k in
              lost d row (some-injective (sym names ∙ said)) gone found,
          λ k.
              let (d, again) = validate_refresh-Accepted env next other later info k in
              lost d again.row (some-injective (sym names ∙ again.says)) gone again.found,
        )
    where
      lost :
          (d : Claims) (row : SessionRow)
          → others ≡ d
          → find_session others.sid next.sessions ≡ none
          → find_session d.sid next.sessions ≡ some row
          → ⊥
      lost d row e gone found = absurd (cc (e, gone, found))

  pub invalidate_authority-emptied :
      (store next : Store)
      → invalidate_authority env store ≡ ok next
      → (next.passwords ≡ []) × (next.sessions ≡ [])
  unfolding invalidate_authority disable_loaded disable
  invalidate_authority-emptied store next h = ground arith

  validate_password-nonempty :
      (store : Store) (identifier password : Bytes)
      → validate_password env store identifier password ≡ ok tt
      → store.passwords ≢ []
  unfolding validate_password verify_password match_password
  validate_password-nonempty store identifier password h none_left =
      on_ok (verify_password env store identifier password) _ h λ w verified _.
        on_pass (credentials_malformed identifier password) _ _ verified λ _ h1.
          on_ok (map_err password_account_error (enabled_account env store)) _ h1 λ account _ h2.
            on_ok (match_password env password none (take 16 store.passwords)) _ h2
              λ matched m h3. ground (arith, none_left, m, h3)

  -- After the authority has been invalidated no token is accepted and no password is known in the
  -- store that results.
  pub get_session-invalidate_authority :
      (store next : Store) (token identifier password : Bytes) (now : ℕ) (info : SessionInfo)
      → invalidate_authority env store ≡ ok next
      → (get_session env next token now ≢ ok info)
        × (validate_refresh env next token now ≢ ok info)
        × (validate_password env next identifier password ≢ ok tt)
  get_session-invalidate_authority store next token identifier password now info h =
      let (passwords, sessions) = invalidate_authority-emptied store next h in
      (
        λ k.
            let (d, said, row, found) = get_session-found env next token now info k in
            no_session d.sid next.sessions row sessions found,
        λ k.
            let (d, again) = validate_refresh-Accepted env next token now info k in
            no_session d.sid next.sessions again.row sessions again.found,
        λ k. validate_password-nonempty next identifier password k passwords,
      )

  -- After a password of a valid store has been revoked, no password has its name in the store that
  -- results, and no token that names one of its sessions is accepted there, neither to show the session
  -- nor to refresh it.
  pub get_session-revoke_password :
      (store next : Store) (name token : Bytes) (claims : Claims) (row : SessionRow)
      → IsValid store
      → revoke_password store name ≡ ok next
      → token_claims env token ≡ some claims
      → find_session claims.sid store.sessions ≡ some row
      → row.password_name ≡ name
      → (has_password name next.passwords ≡ false)
        × ((later : ℕ) (info : SessionInfo)
            → (get_session env next token later ≢ ok info)
              × (validate_refresh env next token later ≢ ok info))
  unfolding revoke_password
  get_session-revoke_password store next name token claims row valid h says found owned =
      on_pass (not (valid_name name)) _ _ h λ _ h1.
        let same = ok-injective h1 in
        let gone : find_session claims.sid next.sessions ≡ none =
          subst (λ (s : Store). find_session claims.sid s.sessions ≡ none) same
            (find_session-revoked claims.sid name store.sessions row valid.keyed found owned) in
        (
          subst (λ (s : Store). has_password name s.passwords ≡ false) same
              (has_password-revoked name store.passwords),
          λ later info. (
            λ k.
                let (d, said, r, there) = get_session-found env next token later info k in
                lost d r (some-injective (sym says ∙ said)) gone there,
            λ k.
                let (d, again) = validate_refresh-Accepted env next token later info k in
                lost d again.row (some-injective (sym says ∙ again.says)) gone again.found,
          ),
        )
    where
      lost :
          (d : Claims) (r : SessionRow)
          → claims ≡ d
          → find_session claims.sid next.sessions ≡ none
          → find_session d.sid next.sessions ≡ some r
          → ⊥
      lost d r e gone there = absurd (cc (e, gone, there))
