-- ===== src/Account/SignIn.antt =====
-- The start and the polling of a sign-in in `execute` of crates/psky/src/account.rs.
pub mod Permitted
pub mod Previous
pub mod Binding
pub mod Rates
use psky.Prelude.{
  ℕ, ◌+◌, ◌-◌, Bool, true, false, not, ◌&&◌, ◌||◌, Option, none, some, Bytes, bytes_ord, ◌=?◌,
  Result, ok, err, fail_if, ok_or, map_err, map_or, [], leb, ltb, ◌==◌, if◌then◌else◌, length,
}
use psky.Prelude.Sorted as Sorted
use psky.Credentials.Types as CredentialTypes
use psky.Credentials.Store.{account, evidence, set_evidence, invalidate_authority, bind_verified}
use psky.Farcaster.Types as AuthTypes
use psky.Farcaster.Client as AuthClient
use psky.Account.Types.{Pending, Completion, Evidence, Core, Draws, Failure, Env}
use psky.Account.Failures.{
  busy, internal, disabled, unverified, not_allowed, from_auth, from_credential,
}
use psky.Account.Limits.{limit}
use psky.Account.Settings.{identity}
use psky.Account.Authority.{client, hash, fingerprint}
use psky.Account.State.{Act, ◌>>=◌, ◌>>◌, done, reads, asks, writes, with_unit}

abbrev challenge_ttl : ℕ
challenge_ttl = 300

abbrev grant_ttl : ℕ
grant_ttl = 600

abbrev max_pending : ℕ
max_pending = 8

pub record Started : Type 0 where
  pub request_id : Bytes
  pub poll_token : Bytes
  pub auth_url : Bytes
  pub qr_data_url : Bytes
  pub expires_at : ℕ

pub data Progress : Type 0 where
  waiting : Progress
  complete : Completion → Progress

unfoldable pub limit_starts : ℕ → Act (Unit {0})
limit_starts now core =
    let limited = limit core.start_times now 60 5 in
    (record core { start_times = limited.0 }, limited.1)

-- The attempt is in the map from now on, or as it is now.
unfoldable pub keep : Bytes → Pending → Act (Unit {0})
keep id attempt core = (record core { pending = Sorted.insert id attempt core.pending }, ok tt)

-- A refusal that ends the attempt.
unfoldable pub refuse_if : (Core → Bool) → Failure → Bytes → Act (Unit {0})
refuse_if test failure id core =
    if test core
    then (record core { pending = Sorted.remove id core.pending }, err failure)
    else (core, ok tt)

abbrev pub permits : Option ℕ → ℕ → Bool
permits none fid = false
permits (some n) fid = n == fid

abbrev pub is_older : AuthTypes.VerifiedIdentity → AuthTypes.VerifiedIdentity → Bool
is_older verified previous =
    ltb verified.checked_block previous.checked_block
    || verified.checked_block == previous.checked_block
      && not (verified.block_hash =? previous.block_hash)

abbrev proof_of : AuthTypes.ChannelStatus → Option AuthTypes.SignedProof
proof_of AuthTypes.ChannelStatus.pending = none
proof_of (AuthTypes.ChannelStatus.completed proof) = some proof

abbrev pub map_disabled :
    Result Bytes CredentialTypes.Identity → Result Failure CredentialTypes.Identity
map_disabled (ok made) = ok made
map_disabled (err message) = err disabled

module _ (env : Env) (now : ℕ) (draws : Draws) where
  abbrev channel_of : AuthTypes.Challenge → Core → Result Failure AuthTypes.Channel
  channel_of challenge core = channel_with challenge (client env core)
    where
      channel_with :
          AuthTypes.Challenge
          → Result Failure AuthTypes.AuthClient
          → Result Failure AuthTypes.Channel
      channel_with challenge (ok auth_client) =
          map_err from_auth (AuthClient.start env.auth auth_client challenge)
      channel_with challenge (err failure) = err failure

  unfoldable pub begin : Act Started
  unfolding limit_starts keep
  begin = do
    limit_starts now
    reads (λ core. fail_if (leb max_pending (length core.pending)) busy)
    channel ← reads (
        channel_of
          (record { nonce = draws.nonce; created_at = now; expires_at = now + challenge_ttl }))
    qr ← reads (λ core. ok_or (env.qr_code channel.auth_url) internal)
    keep draws.request_id (record {
      poll_hash = hash env draws.poll_token;
      challenge = record {
        nonce = draws.nonce;
        created_at = now;
        expires_at = now + challenge_ttl;
      };
      channel = channel.channel_token;
      proof = none;
      last_poll = 0;
      completion = none;
    })
    done (record {
      request_id = draws.request_id;
      poll_token = draws.poll_token;
      auth_url = channel.auth_url;
      qr_data_url = qr;
      expires_at = now + challenge_ttl;
    })

  -- The attempt that is named, for its poll token.
  abbrev pub opened_by : Bytes → Option Pending → Result Failure Pending
  opened_by token none = err unverified
  opened_by token (some attempt) =
      if hash env token =? attempt.poll_hash then ok attempt else err unverified

  -- The evidence never falls behind what is stored.
  abbrev pub check_decoded :
      AuthTypes.VerifiedIdentity → Option Evidence → Result Failure (Unit {0})
  check_decoded verified none = err unverified
  check_decoded verified (some saved) =
      fail_if (is_older verified saved.identity)
        (from_auth AuthTypes.AuthError.invalid_chain_evidence)

  abbrev pub check_previous : AuthTypes.VerifiedIdentity → Option Bytes → Result Failure (Unit {0})
  check_previous verified none = ok tt
  check_previous verified (some raw) = check_decoded verified (env.decode_evidence raw)

  -- Another authority than the one that is bound takes all that was granted.
  abbrev pub cleared :
      Core → Result CredentialTypes.Error CredentialTypes.Store → Core × Result Failure (Unit {0})
  cleared core (ok store) = (record core { store = store; grants = [] }, ok tt)
  cleared core (err e) = (core, err (from_credential e))

  unfoldable pub supersede : Bytes → Option CredentialTypes.Account → Act (Unit {0})
  supersede authority none core = (core, ok tt)
  supersede authority (some bound) core =
      if bound.authority =? authority
      then (core, ok tt)
      else cleared core (invalidate_authority env.credentials core.store)

  unfoldable pub finish : Bytes → Pending → Completion → Act Progress
  finish id attempt completion core = (
    record core {
      checked_at = some draws.settled_at;
      grants = Sorted.insert (hash env draws.account_token) (now + grant_ttl) core.grants;
      pending =
          Sorted.insert id
            (record {
              poll_hash = attempt.poll_hash;
              challenge = attempt.challenge;
              channel = [];
              proof = none;
              last_poll = attempt.last_poll;
              completion = some completion;
            })
            core.pending;
    },
    ok (complete completion),
  )

  -- The account is bound for an identity that may sign in.
  unfoldable pub bind_permitted :
      Bytes → Pending → AuthTypes.SignedProof → AuthTypes.VerifiedIdentity → Act Progress
  unfolding supersede finish
  bind_permitted id attempt proof verified = do
    raw ← asks (evidence env.credentials)
    reads (λ core. check_previous verified raw)
    loaded ← asks (account env.credentials)
    supersede (fingerprint env verified) loaded
    made ← reads (λ core. map_disabled (identity env core.settings))
    bound ← writes (λ store.
        bind_verified env.credentials store verified.fid (fingerprint env verified) made
          draws.settled_at draws.key)
    document ← reads (λ core.
        ok_or (env.encode_evidence (record { identity = verified; proof = proof })) internal)
    writes (λ store. with_unit (set_evidence env.credentials store document))
    finish id attempt (record {
      account_token = draws.account_token;
      fid = bound.fid;
      handle = bound.identity.handle;
      service_url = bound.identity.service_url;
      expires_at = now + grant_ttl;
    })

  -- The identity is verified: whether it may sign in.
  unfoldable pub accept :
      Bytes → Pending → AuthTypes.SignedProof → AuthTypes.VerifiedIdentity → Act Progress
  unfolding refuse_if bind_permitted
  accept id attempt proof verified = do
    refuse_if (λ core. leb attempt.challenge.expires_at draws.settled_at) unverified id
    refuse_if (λ core. not (permits core.settings.allowed_fid verified.fid)) not_allowed id
    bind_permitted id attempt proof verified

  unfoldable pub prove :
      Bytes → Pending → AuthTypes.AuthClient → Option AuthTypes.SignedProof → Act Progress
  unfolding keep accept
  prove id attempt auth_client none = done waiting
  prove id attempt auth_client (some proof) = do
    keep id (record attempt { proof = some proof })
    verified ← reads (λ core.
        map_err from_auth
          (AuthClient.verify env.auth auth_client proof attempt.challenge draws.verified_at))
    accept id (record attempt { proof = some proof }) proof verified

  unfoldable pub fetch_proof :
      AuthTypes.AuthClient
      → Bytes
      → Option AuthTypes.SignedProof
      → Result Failure (Option AuthTypes.SignedProof)
  fetch_proof auth_client channel (some proof) = ok (some proof)
  fetch_proof auth_client channel none =
      fetched (AuthClient.channel_status env.auth auth_client channel)
    where
      fetched :
          Result AuthTypes.AuthError AuthTypes.ChannelStatus
          → Result Failure (Option AuthTypes.SignedProof)
      fetched (ok status) = ok (proof_of status)
      fetched (err error) = err (from_auth error)

  -- A completion is given again; else the attempt goes on.
  unfoldable pub advance : Bytes → AuthTypes.AuthClient → Pending → Option Completion → Act Progress
  unfolding keep fetch_proof prove
  advance id auth_client attempt (some completion) = done (complete completion)
  advance id auth_client attempt none = do
    reads (λ core. fail_if (ltb (now - attempt.last_poll) 2) busy)
    keep id (record attempt { last_poll = now })
    proof ← reads (λ core. fetch_proof auth_client attempt.channel attempt.proof)
    prove id (record attempt { last_poll = now }) auth_client proof

  unfoldable pub resume : Bytes → Bytes → Act Progress
  unfolding advance
  resume id token = do
    auth_client ← reads (client env)
    attempt ← reads (λ core. opened_by token (Sorted.get id core.pending))
    advance id auth_client attempt attempt.completion
