-- ===== src/Credentials/Sessions/Preservation.antt =====
-- Each operation keeps the tables of passwords and sessions valid.
use mathlib.Core.Path.{subst}
use psky.Prelude.{
  ℕ, ◌+◌, ◌*◌, ◌<◌, ◌≡◌, sym, not, ◌||◌, Bytes, bytes_ord, ◌=?◌, ok, on_ok, on_pass, ok-injective,
  ap, arith, [], ◌==◌, select, length, length-select-le, leb, ltb, is_some,
}
use psky.Credentials.Types.{Identity, Account, SessionRow, Store, Env, Session, IssuedPassword}
use psky.Credentials.Identity.{valid_name, validate}
use psky.Credentials.Tokens.{create_session, refresh_seconds}
use psky.Credentials.Store.{
  enabled_account, set_evidence, bind_verified, bind_loaded, bind_again, bind_first,
  binding_refused, update_account, load_account,
}
use psky.Credentials.Sessions.{
  with_rows, has_password, find_session, rotate, insert_session, max_passwords, max_sessions,
  revoke_password, issue_password, authenticate, verify_password, credentials_malformed,
  accept_refresh, refresh_session, delete_session,
}
use psky.Credentials.Sessions.Validity.{
  IsValid, AreNamed-select, AreKeyed-select, AreLinked-select, AreLinked-cons, AreLinked-revoke,
  length-rotate, AreKeyed-rotate, AreLinked-rotate,
}

module _ (env : Env) where
  pub same_rows :
      (s t : Store) → t.passwords ≡ s.passwords → t.sessions ≡ s.sessions → IsValid s → IsValid t
  same_rows s t p q v = record {
    few_passwords = omega (arith, v.few_passwords, ap length p);
    few_sessions = omega (arith, v.few_sessions, ap length q);
    named = rw p v.named;
    keyed = rw q v.keyed;
    linked = rw (p, q) v.linked;
  }

  pub proves-rows :
      (s t : Store) (document : Bytes)
      → set_evidence env s document ≡ ok t
      → (t.passwords ≡ s.passwords) × (t.sessions ≡ s.sessions)
  unfolding set_evidence
  proves-rows s t document h =
      on_pass (length document == 0 || ltb (32 * 1024) (length document)) _ _ h λ _ h1.
        on_ok (enabled_account env s) _ h1 λ _ _ h2. (
          ap (λ (w : Store). w.passwords) (sym (ok-injective h2)),
          ap (λ (w : Store). w.sessions) (sym (ok-injective h2)),
        )

  pub binds-rows :
      (s t : Store) (fid : ℕ) (authority : Bytes) (identity : Identity) (now : ℕ) (key : Bytes)
      (a : Account)
      → bind_verified env s fid authority identity now key ≡ ok (t, a)
      → (t.passwords ≡ s.passwords) × (t.sessions ≡ s.sessions)
  unfolding bind_verified bind_loaded bind_again bind_first update_account
  binds-rows s t fid authority identity now key a h = on_ok (validate env identity) _ h λ _ _ h1.
      on_pass (binding_refused fid authority) _ _ h1
        λ _ h2. on_ok (load_account env s.account) _ h2 λ loaded _ h3. ground (arith, h3)

  pub issues-IsValid :
      (s t : Store) (name : Bytes) (now : ℕ) (random salt : Bytes) (issued : IssuedPassword)
      → issue_password env s name now random salt ≡ ok (t, issued)
      → IsValid s
      → IsValid t
  unfolding issue_password
  issues-IsValid s t name now random salt issued h v = on_pass (not (valid_name name)) _ _ h λ _ h1.
      on_ok (enabled_account env s) _ h1 λ _ _ h2.
        on_pass (leb max_passwords (length s.passwords)) _ _ h2 λ few h3.
          on_pass (has_password name s.passwords) _ _ h3 λ new h4.
            subst IsValid (ap (λ (w : Store × IssuedPassword). w.0) (ok-injective h4)) (record {
              few_passwords = ground (arith, few);
              few_sessions = v.few_sessions;
              named = (new, v.named);
              keyed = v.keyed;
              linked = AreLinked-cons _ s.passwords s.sessions v.linked;
            })

  pub revokes-IsValid :
      (s t : Store) (name : Bytes) → revoke_password s name ≡ ok t → IsValid s → IsValid t
  unfolding revoke_password
  revokes-IsValid s t name h v = on_pass (not (valid_name name)) _ _ h λ _ h1.
      subst IsValid (ok-injective h1) (record {
        few_passwords =
            omega
              (arith, v.few_passwords, length-select-le (λ p. not (p.name =? name)) s.passwords);
        few_sessions = omega (
          arith,
          v.few_sessions,
          length-select-le (λ r. not (r.password_name =? name)) s.sessions,
        );
        named = AreNamed-select _ s.passwords v.named;
        keyed = AreKeyed-select _ s.sessions v.keyed;
        linked = AreLinked-revoke name s.passwords s.sessions v.linked;
      })

  pub insert_session-IsValid :
      (s t : Store) (row : SessionRow)
      → insert_session row s ≡ ok t
      → length s.sessions < max_sessions
      → IsValid s
      → IsValid t
  unfolding insert_session
  insert_session-IsValid s t row h room v =
      on_pass (is_some (find_session row.id s.sessions)) _ _ h λ new h1.
        on_pass (not (has_password row.password_name s.passwords)) _ _ h1 λ known h2.
          subst IsValid (ok-injective h2) (record {
            few_passwords = v.few_passwords;
            few_sessions = omega (arith, room);
            named = v.named;
            keyed = (ground (arith, new), v.keyed);
            linked = (ground (arith, known), v.linked);
          })

  pub authenticates-IsValid :
      (s t : Store) (identifier password : Bytes) (now : ℕ) (sid refresh_jti access_jti : Bytes)
      (session : Session)
      → authenticate env s identifier password now sid refresh_jti access_jti ≡ ok (t, session)
      → IsValid s
      → IsValid t
  unfolding authenticate
  authenticates-IsValid s t identifier password now sid refresh_jti access_jti session h v =
      let live = select (λ r. ltb now r.refresh_exp) s.sessions in
      on_pass (credentials_malformed identifier password) _ _ h λ _ h1.
        on_ok (verify_password env s identifier password) _ h1 λ (account, name) _ h2.
          on_pass (leb max_sessions (length live)) _ _ h2 λ room h3.
            on_ok
              (create_session env s.jwt_key account sid refresh_jti access_jti now
                (now + refresh_seconds))
              _ h3
              λ made _ h4.
                on_ok
                  (insert_session
                    (record {
                      id = sid;
                      password_name = name;
                      refresh_jti = refresh_jti;
                      refresh_exp = now + refresh_seconds;
                    })
                    (with_rows s s.passwords live))
                  _ h4
                  λ u inserted h5.
                    subst IsValid (ap (λ (w : Store × Session). w.0) (ok-injective h5)) (
                      insert_session-IsValid (with_rows s s.passwords live) u _ inserted
                        (ground (arith, room))
                        (record {
                          few_passwords = v.few_passwords;
                          few_sessions = omega (
                            arith,
                            v.few_sessions,
                            length-select-le (λ (r : SessionRow). ltb now r.refresh_exp) s.sessions,
                          );
                          named = v.named;
                          keyed = AreKeyed-select _ s.sessions v.keyed;
                          linked = AreLinked-select _ s.passwords s.sessions v.linked;
                        }))

  pub refreshes-IsValid :
      (s t : Store) (token : Bytes) (now : ℕ) (jti access_jti : Bytes) (session : Session)
      → refresh_session env s token now jti access_jti ≡ ok (t, session)
      → IsValid s
      → IsValid t
  unfolding refresh_session
  refreshes-IsValid s t token now jti access_jti session h v =
      on_ok (accept_refresh env s token now) _ h λ (account, claims) _ h1.
        on_ok (create_session env s.jwt_key account claims.sid jti access_jti now claims.exp) _ h1
          λ made _ h2.
            on_pass (not ((rotate jti claims.sid claims.jti s.sessions).1 == 1)) _ _ h2 λ _ h3.
              subst IsValid (ap (λ (w : Store × Session). w.0) (ok-injective h3)) (record {
                few_passwords = v.few_passwords;
                few_sessions =
                    omega
                      (arith, v.few_sessions, length-rotate jti claims.sid claims.jti s.sessions);
                named = v.named;
                keyed = AreKeyed-rotate jti claims.sid claims.jti s.sessions v.keyed;
                linked = AreLinked-rotate jti claims.sid claims.jti s.passwords s.sessions v.linked;
              })

  pub deletes-IsValid :
      (s t : Store) (token : Bytes) (now : ℕ)
      → delete_session env s token now ≡ ok t
      → IsValid s
      → IsValid t
  unfolding delete_session
  deletes-IsValid s t token now h v =
      on_ok (accept_refresh env s token now) _ h λ (account, claims) _ h1.
        subst IsValid (ok-injective h1) (record {
          few_passwords = v.few_passwords;
          few_sessions = omega (
            arith,
            v.few_sessions,
            length-select-le (λ (r : SessionRow). not (r.id =? claims.sid)) s.sessions,
          );
          named = v.named;
          keyed = AreKeyed-select _ s.sessions v.keyed;
          linked = AreLinked-select _ s.passwords s.sessions v.linked;
        })

  pub empty-IsValid : (s : Store) → s.passwords ≡ [] → s.sessions ≡ [] → IsValid s
  empty-IsValid s p q = record {
    few_passwords = omega (arith, ap length p);
    few_sessions = omega (arith, ap length q);
    named = rw p tt;
    keyed = rw q tt;
    linked = rw q tt;
  }
