-- ===== src/Account/SignIn/Binding.antt =====
-- What a sign-in that completes leaves.
use psky.Prelude.{
  ℕ, ◌+◌, ◌≡◌, refl, sym, ap, ◌∙◌, Option, none, some, Bytes, bytes_ord, Result, ok, err,
  ok-injective, ok_or,
}
use mathlib.Core.Path.{subst}
use psky.Prelude.Sorted as Sorted
use psky.Credentials.Types as CredentialTypes
use psky.Credentials.Store.{account, evidence, set_evidence, bind_verified}
use psky.Farcaster.Types as AuthTypes
use psky.Account.Types.{Pending, Completion, Core, Draws, Failure, Env}
use psky.Account.Failures.{internal}
use psky.Account.Settings.{identity}
use psky.Account.Authority.{hash, fingerprint}
use psky.Account.State.{
  Act, ◌>>=◌, ◌>>◌, asks, reads, writes, with_unit, on_step, on_read, on_asked, on_wrote,
}
use psky.Credentials.Store.Binding.{bind_verified-IsBoundAs, set_evidence_sound}
use psky.Account.SignIn.Previous.{
  NotOlder, Replaced, check_previous-NotOlder, supersede-Superseded, supersede-settings,
  Superseded-Replaced,
}
use psky.Account.SignIn.{
  Progress, complete, map_disabled, check_previous, supersede, finish, bind_permitted,
}

module _ (env : Env) (now : ℕ) (draws : Draws) where
  with_unit_sound :
      (result : Result CredentialTypes.Error CredentialTypes.Store) {store : CredentialTypes.Store}
      {u : Unit {0}}
      → with_unit result ≡ ok (store, u)
      → result ≡ ok store
  with_unit_sound (ok s) h =
      ap (λ x. ok x) (ap (λ (x : CredentialTypes.Store × Unit {0}). x.0) (ok-injective h))
  with_unit_sound (err e) h = absurd (cc)

  made_sound :
      (result : Result Bytes CredentialTypes.Identity) {made : CredentialTypes.Identity}
      → map_disabled result ≡ ok made
      → result ≡ ok made
  made_sound (ok made) h = ap (λ x. ok x) (ok-injective h)
  made_sound (err e) h = absurd (cc)

  encoded_sound :
      (found : Option Bytes) {document : Bytes}
      → ok_or found internal ≡ ok document
      → found ≡ some document
  encoded_sound none h = absurd (cc)
  encoded_sound (some d) h = ap (λ x. some x) (ok-injective h)

  -- The sign-in is complete for this identity, and the next state holds it.
  pub record Bound (core next : Core) (proof : AuthTypes.SignedProof)
      (verified : AuthTypes.VerifiedIdentity) (progress : Progress) : Type 0 where
    pub raw : Option Bytes
    pub is_raw : evidence env.credentials core.store ≡ ok raw
    pub not_older : NotOlder env verified raw
    pub document : Bytes
    pub is_document :
        env.encode_evidence (record { identity = verified; proof = proof }) ≡ some document
    pub is_stored : next.store.evidence ≡ some document
    pub loaded : Option CredentialTypes.Account
    pub is_loaded : account env.credentials core.store ≡ ok loaded
    pub grants : Sorted.Map Bytes ℕ
    pub replaced : Replaced core (fingerprint env verified) loaded grants next.store
    pub is_granted : next.grants ≡ Sorted.insert (hash env draws.account_token) (now + 600) grants
    pub is_checked : next.checked_at ≡ some draws.settled_at
    pub made : CredentialTypes.Identity
    pub is_made : identity env core.settings ≡ ok made
    pub completion : Completion
    pub is_complete : progress ≡ complete completion
    pub same_token : completion.account_token ≡ draws.account_token
    pub same_fid : completion.fid ≡ verified.fid
    pub same_handle : completion.handle ≡ made.handle
    pub same_url : completion.service_url ≡ made.service_url
    pub until : completion.expires_at ≡ now + 600

  bound_completion : CredentialTypes.Account → Completion
  bound_completion bound = record {
    account_token = draws.account_token;
    fid = bound.fid;
    handle = bound.identity.handle;
    service_url = bound.identity.service_url;
    expires_at = now + 600;
  }

-- Where the polling of a sign-in goes on to bind a permitted identity and completes, the new evidence does
-- not fall behind what the store had, neither in its block nor by another hash at the same height, and it is
-- what the store then holds. If another authority was bound, no password, session or earlier grant is left,
-- else they are as they were; the token that is handed out is granted for ten minutes, the completion names
-- the verified account and the identity of the settings, and the authority counts as checked.
pub bind_permitted-Bound :
    (env : Env) (now : ℕ) (draws : Draws) (id : Bytes) (attempt : Pending)
    (proof : AuthTypes.SignedProof) (verified : AuthTypes.VerifiedIdentity) (core next : Core)
    (progress : Progress)
    → bind_permitted env now draws id attempt proof verified core ≡ (next, ok progress)
    → Bound env now draws core next proof verified progress
unfolding bind_permitted finish bound_completion
bind_permitted-Bound env now draws id attempt proof verified core next progress h =
    let authority = fingerprint env verified in
    let store_it : CredentialTypes.Account → Bytes → Act Progress = λ bound document.
      writes (λ store. with_unit (set_evidence env.credentials store document))
      >> finish env now draws id attempt (bound_completion env now draws bound) in
    let encode : CredentialTypes.Account → Act Progress = λ bound.
      reads
        (λ c. ok_or (env.encode_evidence (record { identity = verified; proof = proof })) internal)
      >>= store_it bound in
    let bind : CredentialTypes.Identity → Act Progress = λ made.
      writes (λ store.
        bind_verified env.credentials store verified.fid authority made draws.settled_at draws.key)
      >>= encode in
    let identify : Unit {0} → Act Progress =
      λ _. reads (λ c. map_disabled (identity env c.settings)) >>= bind in
    let replace : Option CredentialTypes.Account → Act Progress =
      λ loaded. supersede env now draws authority loaded >>= identify in
    let load : Unit {0} → Act Progress = λ _. asks (account env.credentials) >>= replace in
    let check : Option Bytes → Act Progress =
      λ raw. reads (λ c. check_previous env now draws verified raw) >>= load in
    on_asked core (evidence env.credentials core.store) check h λ raw is_raw h.
      on_read core (check_previous env now draws verified raw) load h λ u ahead h.
        on_asked core (account env.credentials core.store) replace h λ loaded is_loaded h.
          on_step (supersede env now draws authority loaded core) identify h λ mid v superseded h.
            on_read mid (map_disabled (identity env mid.settings)) bind h λ made is_made h.
              on_wrote mid
                (bind_verified env.credentials mid.store verified.fid authority made
                  draws.settled_at draws.key)
                encode h
                λ store bound is_bound h.
                  on_read (record mid { store = store })
                    (ok_or (env.encode_evidence (record { identity = verified; proof = proof }))
                      internal)
                    (store_it bound) h
                    λ document is_document h.
                      on_wrote (record mid { store = store })
                        (with_unit (set_evidence env.credentials store document))
                        (λ _.
                          finish env now draws id attempt (bound_completion env now draws bound))
                        h
                        λ last w is_stored h.
                          let as_bound =
                            bind_verified-IsBoundAs env.credentials mid.store verified.fid authority
                              made draws.settled_at draws.key is_bound in
                          let (stored, passwords, sessions) =
                            set_evidence_sound env.credentials store last document (
                              with_unit_sound env now draws
                                (set_evidence env.credentials store document) is_stored) in
                          subst (λ n. Bound env now draws core n proof verified progress)
                            (ap (λ (s : Core × Result Failure Progress). s.0) h)
                            (record {
                              raw = raw;
                              is_raw = is_raw;
                              not_older = check_previous-NotOlder env now draws verified raw ahead;
                              document = document;
                              is_document = encoded_sound env now draws _ is_document;
                              is_stored = stored;
                              loaded = loaded;
                              is_loaded = is_loaded;
                              grants = mid.grants;
                              replaced =
                                  Superseded-Replaced env now draws core mid authority loaded last
                                    (passwords ∙ as_bound.same_passwords)
                                    (sessions ∙ as_bound.same_sessions)
                                    (supersede-Superseded env now draws authority loaded core mid
                                      superseded);
                              is_granted = refl;
                              is_checked = refl;
                              made = made;
                              is_made =
                                  ap (identity env) (
                                    sym (
                                      supersede-settings env now draws authority loaded core mid
                                        superseded))
                                  ∙ made_sound env now draws (identity env mid.settings) is_made;
                              completion = bound_completion env now draws bound;
                              is_complete = sym (
                                  ok-injective
                                    (ap (λ (s : Core × Result Failure Progress). s.1) h));
                              same_token = refl;
                              same_fid = as_bound.same_fid;
                              same_handle = as_bound.same_handle;
                              same_url = as_bound.same_url;
                              until = refl;
                            })
