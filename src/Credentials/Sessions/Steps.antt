-- ===== src/Credentials/Sessions/Steps.antt =====
-- Every sequence of successful operations on a store, and what it keeps.
use psky.Prelude.{ℕ, ◌≡◌, Bytes, bytes_ord, ok}
use psky.Credentials.Types.{Identity, Account, Store, Env, Session, IssuedPassword}
use psky.Credentials.Store.{set_evidence, bind_verified, invalidate_authority}
use psky.Credentials.Sessions.{
  revoke_password, issue_password, authenticate, refresh_session, delete_session,
}
use psky.Credentials.Sessions.Validity.{IsValid}
use psky.Credentials.Sessions.Revocation.{invalidate_authority-emptied}
use psky.Credentials.Sessions.Preservation.{
  same_rows, proves-rows, binds-rows, issues-IsValid, revokes-IsValid, authenticates-IsValid,
  refreshes-IsValid, deletes-IsValid, empty-IsValid,
}

module _ (env : Env) where
  -- One operation that commits.
  pub data Step : Store → Store → Type 0 where
    proves : {s t : Store} (document : Bytes) → set_evidence env s document ≡ ok t → Step s t
    binds :
        {s t : Store} (fid : ℕ) (authority : Bytes) (identity : Identity) (now : ℕ) (key : Bytes)
        (a : Account)
        → bind_verified env s fid authority identity now key ≡ ok (t, a)
        → Step s t
    invalidates : {s t : Store} → invalidate_authority env s ≡ ok t → Step s t
    issues :
        {s t : Store} (name : Bytes) (now : ℕ) (random salt : Bytes) (issued : IssuedPassword)
        → issue_password env s name now random salt ≡ ok (t, issued)
        → Step s t
    revokes : {s t : Store} (name : Bytes) → revoke_password s name ≡ ok t → Step s t
    authenticates :
        {s t : Store} (identifier password : Bytes) (now : ℕ) (sid refresh_jti access_jti : Bytes)
        (session : Session)
        → authenticate env s identifier password now sid refresh_jti access_jti ≡ ok (t, session)
        → Step s t
    refreshes :
        {s t : Store} (token : Bytes) (now : ℕ) (jti access_jti : Bytes) (session : Session)
        → refresh_session env s token now jti access_jti ≡ ok (t, session)
        → Step s t
    deletes :
        {s t : Store} (token : Bytes) (now : ℕ) → delete_session env s token now ≡ ok t → Step s t

  pub data Steps : Store → Store → Type 0 where
    stop : {s : Store} → Steps s s
    next : {s t u : Store} → Step s t → Steps t u → Steps s u

  Step-IsValid : (s t : Store) → Step s t → IsValid s → IsValid t
  Step-IsValid s t (proves document h) v =
      let (p, q) = proves-rows env s t document h in same_rows env s t p q v
  Step-IsValid s t (binds fid authority identity now key a h) v =
      let (p, q) = binds-rows env s t fid authority identity now key a h in same_rows env s t p q v
  Step-IsValid s t (invalidates h) v =
      let (p, q) = invalidate_authority-emptied env s t h in empty-IsValid env t p q
  Step-IsValid s t (issues name now random salt issued h) v =
      issues-IsValid env s t name now random salt issued h v
  Step-IsValid s t (revokes name h) v = revokes-IsValid env s t name h v
  Step-IsValid s t (authenticates identifier password now sid refresh_jti access_jti session h) v =
      authenticates-IsValid env s t identifier password now sid refresh_jti access_jti session h v
  Step-IsValid s t (refreshes token now jti access_jti session h) v =
      refreshes-IsValid env s t token now jti access_jti session h v
  Step-IsValid s t (deletes token now h) v = deletes-IsValid env s t token now h v

  -- Every operation that commits keeps a valid store valid, and so does every sequence of them: at
  -- most 16 passwords with distinct names, at most 64 sessions with distinct identifiers, and every
  -- session with its password.
  pub Steps-IsValid : (s t : Store) → Steps s t → IsValid s → IsValid t
  Steps-IsValid s t stop v = v
  Steps-IsValid s t (next {t = u} step steps) v = Steps-IsValid u t steps (Step-IsValid s u step v)
