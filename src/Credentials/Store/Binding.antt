-- ===== src/Credentials/Store/Binding.antt =====
-- What a binding and the saving of evidence leave in the credential store.
use psky.Prelude.{◌≡◌, ℕ, bytes_ord, =?_iff, Option, none, some, Bytes, ok, on_ok, on_pass, arith}
use psky.Credentials.Types.{AccountRow, Account, Identity, Store, Env}
use psky.Credentials.Identity.{validate}
use psky.Credentials.Store.{
  set_evidence, bind_verified, bind_again, bind_first, bind_loaded, conflicts, same_identity,
  update_account, load_account, binding_refused,
}

-- The account that is bound is the one that was asked for, and the binding leaves the tables alone.
pub record IsBoundAs (store after : Store) (fid : ℕ) (made : Identity) (bound : Account)
    : Type 0 where
  pub same_fid : bound.fid ≡ fid
  pub same_handle : bound.identity.handle ≡ made.handle
  pub same_url : bound.identity.service_url ≡ made.service_url
  pub same_passwords : after.passwords ≡ store.passwords
  pub same_sessions : after.sessions ≡ store.sessions

module _ (credentials : Env) (store : Store) (fid : ℕ) (authority : Bytes) (made : Identity)
    (now : ℕ) (key : Bytes) where
  bind_again-IsBoundAs :
      (row : AccountRow) (before : Account) {after : Store} {bound : Account}
      → bind_again credentials store row before fid authority made ≡ ok (after, bound)
      → IsBoundAs store after fid made bound
  unfolding bind_again update_account conflicts same_identity
  bind_again-IsBoundAs row before h = ground (
    arith,
    h,
    =?_iff before.identity.handle made.handle,
    =?_iff before.identity.service_url made.service_url,
  )

  bind_first-IsBoundAs :
      {after : Store} {bound : Account}
      → bind_first credentials store fid authority made now key ≡ ok (after, bound)
      → IsBoundAs store after fid made bound
  unfolding bind_first
  bind_first-IsBoundAs h = ground (arith, h)

  bind_loaded-IsBoundAs :
      (row : Option AccountRow) (loaded : Option Account) {after : Store} {bound : Account}
      → bind_loaded credentials store row loaded fid authority made now key ≡ ok (after, bound)
      → IsBoundAs store after fid made bound
  unfolding bind_loaded
  bind_loaded-IsBoundAs (some row) (some before) h = bind_again-IsBoundAs row before h
  bind_loaded-IsBoundAs (some row) none h = bind_first-IsBoundAs h
  bind_loaded-IsBoundAs none loaded h = bind_first-IsBoundAs h

  pub bind_verified-IsBoundAs :
      {after : Store} {bound : Account}
      → bind_verified credentials store fid authority made now key ≡ ok (after, bound)
      → IsBoundAs store after fid made bound
  unfolding bind_verified
  bind_verified-IsBoundAs h = on_ok (validate credentials made) _ h λ u valid h.
      on_pass (binding_refused fid authority) _ _ h λ accepted h.
        on_ok (load_account credentials store.account) _ h
          λ loaded found h. bind_loaded-IsBoundAs store.account loaded h

pub set_evidence_sound :
    (credentials : Env) (store next : Store) (document : Bytes)
    → set_evidence credentials store document ≡ ok next
    → (next.evidence ≡ some document)
      × (next.passwords ≡ store.passwords)
      × (next.sessions ≡ store.sessions)
unfolding set_evidence
set_evidence_sound credentials store next document h = ground (arith, h)
