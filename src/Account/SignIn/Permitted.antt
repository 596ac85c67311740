-- ===== src/Account/SignIn/Permitted.antt =====
-- Whose sign-in completes.
use psky.Prelude.{
  ℕ, ◌<◌, ◌≡◌, ◌⊎◌, refl, sym, ap, ◌∙◌, inl, inr, Bool, true, false, not, Option, none, some, Bytes,
  bytes_ord, ◌=?◌, Result, ok, err, ok-injective, arith, leb, if◌then◌else◌, fail_if, ltb, map_err,
  ◌-◌,
}
use psky.Prelude.Sorted.{get}
use mathlib.Core.Path.{subst}
use psky.Farcaster.Types as AuthTypes
use psky.Farcaster.Client as AuthClient
use psky.Account.Types.{Pending, Completion, Core, Draws, Failure, Env}
use psky.Account.Failures.{busy, unverified, not_allowed, from_auth}
use psky.Account.Authority.{client, hash}
use psky.Account.State.{Act, ◌>>=◌, ◌>>◌, reads, on_step}
use psky.Account.SignIn.{
  Progress, waiting, complete, permits, keep, refuse_if, bind_permitted, accept, prove, fetch_proof,
  advance, opened_by, resume,
}

permits_sound :
    (allowed : Option ℕ) (fid : ℕ) → not (permits allowed fid) ≡ false → allowed ≡ some fid
permits_sound none fid h = absurd (cc)
permits_sound (some n) fid h = ap (λ x. some x) (ground (arith, h))

refuse_if_sound :
    (test : Core → Bool) (failure : Failure) (id : Bytes) (core : Core) {mid : Core} {u : Unit {0}}
    → refuse_if test failure id core ≡ (mid, ok u)
    → (test core ≡ false) × (core ≡ mid)
unfolding refuse_if
refuse_if_sound test failure id core h = passed _ (test core) refl h
  where
    passed :
        {mid : Core} {u : Unit {0}} (refused : Core) (refuses : Bool)
        → test core ≡ refuses
        → ◌≡◌ {A = Core × Result Failure (Unit {0})}
            (if refuses then (refused, err failure) else (core, ok tt))
            (mid, ok u)
        → (test core ≡ false) × (core ≡ mid)
    passed refused true is_test h = absurd (cc (ap (λ s. s.1) h))
    passed refused false is_test h = (is_test, ap (λ s. s.0) h)

map_err_sound :
    {A : Type 0} (answer : Result AuthTypes.AuthError A) {a : A}
    → map_err from_auth answer ≡ ok a
    → answer ≡ ok a
map_err_sound (ok a) h = ap (λ x. ok x) (ok-injective h)
map_err_sound (err e) h = absurd (cc)

module _ (env : Env) (now : ℕ) (draws : Draws) where
  -- The identity is verified for the challenge, in time, and it is the one that is permitted.
  abbrev pub Permitted : AuthTypes.AuthClient → Option ℕ → Pending → Type 0
  Permitted auth_client allowed_fid attempt =
      (proof : AuthTypes.SignedProof) × (verified : AuthTypes.VerifiedIdentity) × (AuthClient.verify
          env.auth auth_client proof attempt.challenge draws.verified_at
        ≡ ok verified)
      × (draws.settled_at < attempt.challenge.expires_at)
      × (allowed_fid ≡ some verified.fid)

  accept_sound :
      (id : Bytes) (attempt : Pending) (proof : AuthTypes.SignedProof)
      (verified : AuthTypes.VerifiedIdentity) (core : Core) {next : Core} {progress : Progress}
      → accept env now draws id attempt proof verified core ≡ (next, ok progress)
      → (draws.settled_at < attempt.challenge.expires_at)
        × (core.settings.allowed_fid ≡ some verified.fid)
  unfolding accept
  accept_sound id attempt proof verified core h =
      let expired : Core → Bool = λ c. leb attempt.challenge.expires_at draws.settled_at in
      let stranger : Core → Bool = λ c. not (permits c.settings.allowed_fid verified.fid) in
      let bind : Unit {0} → Act Progress =
        λ _. bind_permitted env now draws id attempt proof verified in
      on_step (refuse_if expired unverified id core)
        (λ _. refuse_if stranger not_allowed id >>= bind) h
        λ mid u passed h.
          let (is_timely, same) = refuse_if_sound expired unverified id core passed in
          on_step (refuse_if stranger not_allowed id mid) bind h λ last v passed _.
            let (is_known, _) = refuse_if_sound stranger not_allowed id mid passed in
            (
              ground (arith, is_timely),
              ap (λ (c : Core). c.settings.allowed_fid) same
                  ∙ permits_sound mid.settings.allowed_fid verified.fid is_known,
            )

  prove_sound :
      (id : Bytes) (attempt : Pending) (auth_client : AuthTypes.AuthClient)
      (proof : Option AuthTypes.SignedProof) (core : Core) {next : Core} {completion : Completion}
      → prove env now draws id attempt auth_client proof core ≡ (next, ok (complete completion))
      → Permitted auth_client core.settings.allowed_fid attempt
  unfolding prove keep
  prove_sound id attempt auth_client none core h = absurd (cc (ap (λ s. s.1) h))
  prove_sound id attempt auth_client (some proof) core h =
      let kept = keep id (record attempt { proof = some proof }) core in
      let answer =
        AuthClient.verify env.auth auth_client proof attempt.challenge draws.verified_at in
      on_step (kept.0, map_err from_auth answer)
        (accept env now draws id (record attempt { proof = some proof }) proof) h
        λ mid verified checked h.
          let (timely, known) =
            accept_sound id (record attempt { proof = some proof }) proof verified mid h in
          (
            proof,
            verified,
            map_err_sound answer (ap (λ s. s.1) checked),
            timely,
            ap (λ (s : Core × Result Failure AuthTypes.VerifiedIdentity). s.0.settings.allowed_fid)
                  checked
                ∙ known,
          )

  advance_sound :
      (id : Bytes) (auth_client : AuthTypes.AuthClient) (attempt : Pending)
      (completed : Option Completion) (core : Core) {next : Core} {completion : Completion}
      → advance env now draws id auth_client attempt completed core
        ≡ (next, ok (complete completion))
      → (completed ≡ some completion) ⊎ Permitted auth_client core.settings.allowed_fid attempt
  unfolding advance keep
  advance_sound id auth_client attempt (some completion) core h = inl (repeated (ap (λ s. s.1) h))
    where
      repeated :
          {other : Completion}
          → ◌≡◌ {A = Result Failure Progress} (ok (complete completion)) (ok (complete other))
          → some completion ≡ some other
      repeated h = ap (λ x. said x) h
        where
          said : Result Failure Progress → Option Completion
          said (ok (complete c)) = some c
          said (ok waiting) = none
          said (err f) = none
  advance_sound id auth_client attempt none core h =
      let waited : Act (Unit {0}) = reads (λ c. fail_if (ltb (now - attempt.last_poll) 2) busy) in
      let polled : Pending = record attempt { last_poll = now } in
      let fetch : Act (Option AuthTypes.SignedProof) =
        reads (λ c. fetch_proof env now draws auth_client attempt.channel attempt.proof) in
      let ending : Option AuthTypes.SignedProof → Act Progress =
        prove env now draws id polled auth_client in
      on_step (waited core) (λ _. keep id polled >> (fetch >>= ending)) h
        λ mid u waited h. on_step (fetch (keep id polled mid).0) ending h λ last proof fetched h.
          let same : core.settings.allowed_fid ≡ last.settings.allowed_fid =
            ap (λ (s : Core × Result Failure (Unit {0})). s.0.settings.allowed_fid) waited
            ∙ ap
                (λ (s : Core × Result Failure (Option AuthTypes.SignedProof)).
                  s.0.settings.allowed_fid)
                fetched in
          let (proof, verified, checked, timely, known) =
            prove_sound id polled auth_client proof last h in
          inr (proof, verified, checked, timely, same ∙ known)

  opened_by_sound :
      (token : Bytes) (found : Option Pending) {attempt : Pending}
      → opened_by env now draws token found ≡ ok attempt
      → (found ≡ some attempt) × ((hash env token =? attempt.poll_hash) ≡ true)
  opened_by_sound token none h = absurd (cc)
  opened_by_sound token (some attempt) h = matched (hash env token =? attempt.poll_hash) refl h
    where
      matched :
          {other : Pending} (equal : Bool)
          → (hash env token =? attempt.poll_hash) ≡ equal
          → (if equal then ok attempt else err unverified) ≡ ok other
          → (some attempt ≡ some other) × ((hash env token =? other.poll_hash) ≡ true)
      matched {other = other} true is_equal h =
          let same : attempt ≡ other = ok-injective h in
          (ap (λ x. some x) same, subst (λ x. (hash env token =? x.poll_hash) ≡ true) same is_equal)
      matched false is_equal h = absurd (cc)

  -- The attempt that is named is gone on with, by a client for the settings.
  pub record Resumed (id token : Bytes) (core next : Core) (progress : Progress) : Type 0 where
    pub attempt : Pending
    pub auth_client : AuthTypes.AuthClient
    pub found : get id core.pending ≡ some attempt
    pub is_holder : (hash env token =? attempt.poll_hash) ≡ true
    pub is_client : client env core ≡ ok auth_client
    pub advanced :
        advance env now draws id auth_client attempt attempt.completion core ≡ (next, ok progress)

  pub resume_sound :
      (id token : Bytes) (core next : Core) (progress : Progress)
      → resume env now draws id token core ≡ (next, ok progress)
      → Resumed id token core next progress
  unfolding resume
  resume_sound id token core next progress h =
      let find : Act Pending = reads (λ c. opened_by env now draws token (get id c.pending)) in
      let proceed : AuthTypes.AuthClient → Pending → Act Progress =
        λ auth_client attempt. advance env now draws id auth_client attempt attempt.completion in
      on_step (core, client env core) (λ auth_client. find >>= proceed auth_client) h
        λ mid auth_client made h.
          on_step (find mid) (proceed auth_client) h λ last attempt opened h.
            let start : core ≡ mid = ap (λ s. s.0) made in
            let same : last ≡ core =
              sym (start ∙ ap (λ (s : Core × Result Failure Pending). s.0) opened) in
            let (found, equal) =
              opened_by_sound token (get id mid.pending) (ap (λ s. s.1) opened) in
            record {
              attempt = attempt;
              auth_client = auth_client;
              found = ap (λ (c : Core). get id c.pending) start ∙ found;
              is_holder = equal;
              is_client = ap (λ s. s.1) made;
              advanced = subst (λ c. proceed auth_client attempt c ≡ (next, ok progress)) same h;
            }

-- A sign-in completes only for who holds the poll token of the attempt, with the completion that was
-- given before or for an identity that has been verified for the challenge of this attempt, before the
-- challenge expired, and that is the permitted one.
pub resume-Permitted :
    (env : Env) (now : ℕ) (draws : Draws) (id token : Bytes) (core next : Core)
    (completion : Completion)
    → resume env now draws id token core ≡ (next, ok (complete completion))
    → (attempt : Pending) × (auth_client : AuthTypes.AuthClient) × (get id core.pending
        ≡ some attempt)
      × ((hash env token =? attempt.poll_hash) ≡ true)
      × (client env core ≡ ok auth_client)
      × ((attempt.completion ≡ some completion)
          ⊎ Permitted env now draws auth_client core.settings.allowed_fid attempt)
resume-Permitted env now draws id token core next completion h =
    let resumed = resume_sound env now draws id token core next (complete completion) h in
    (
      resumed.attempt,
      resumed.auth_client,
      resumed.found,
      resumed.is_holder,
      resumed.is_client,
      advance_sound env now draws id resumed.auth_client resumed.attempt resumed.attempt.completion
          core resumed.advanced,
    )
