-- ===== src/Farcaster/Message/Bound.antt =====
-- What a message that was accepted is bound to.
use psky.Prelude.{
  ℕ, ◌+◌, ◌-◌, ◌^◌, ◌≤◌, ◌<◌, ◌≡◌, refl, ap, true, false, or_false, not-true, not-false, not, ◌&&◌,
  ◌||◌, Option, some, Bytes, bytes_ord, ◌=?◌, =?_iff, ok, on_ok, on_pass, ok-injective, ok_or,
  ok_or-some, passed, map_or, is_some, arith, leb, ltb, ◌==◌, ==_iff, length, all,
}
use mathlib.Core.Path.{subst}
use psky.Prelude.Int.{ℤ, pos, negsuc}
use psky.Prelude.Text.{codes, strip_prefix, is_ascii_digit, first_is}
use psky.Prelude.Text.Radix.{from_str_radix}
use psky.Farcaster.Types.{Challenge, SignedProof, Time, Message, ParsedProof, Env}
use psky.Farcaster.Message.{
  max_fid, max_message_bytes, clock_skew_seconds, nonce_valid, lifetime_valid, timestamp,
  validate_challenge, to_u64, is_exactly, statement_known, is_bound, without_slash, first_resource,
  parse_fid, parse_signature, prefixed, parse_authority, later_by, check_times, parse,
}

-- A message that is the text that was signed, for this application, and names one account.
pub record Bound (env : Env) (proof : SignedProof) (domain uri : Bytes) (parsed : ParsedProof)
    : Type 0 where
  pub is_parsed : env.parse_message proof.message ≡ some parsed.message
  pub shown : env.show_message parsed.message ≡ proof.message
  pub same_domain : parsed.message.domain ≡ domain
  pub same_uri : parsed.message.uri ≡ uri
  pub on_optimism : parsed.message.chain_id ≡ 10
  pub one_resource : length parsed.message.resources ≡ 1
  pub names_fid : parse_fid (first_resource parsed.message.resources) ≡ ok parsed.fid
  pub fid_range : (1 ≤ parsed.fid) × (parsed.fid ≤ 9_007_199_254_740_991)
  pub hashed : parsed.digest ≡ env.keccak256 (prefixed proof.message)

-- What the test of the message has found.
is_bound_sound :
    (env : Env) (text domain uri : Bytes) (message : Message)
    → is_bound env text domain uri message ≡ true
    → (env.show_message message ≡ text)
      × (message.domain ≡ domain)
      × (message.uri ≡ uri)
      × (message.chain_id ≡ 10)
      × (length message.resources ≡ 1)
unfolding is_bound
is_bound_sound env text domain uri message h =
    let differs = not (env.show_message message =? text) in
    let other_domain = not (message.domain =? domain) in
    let other_uri = not (message.uri =? uri) in
    let bad_nonce = not (nonce_valid message.nonce) in
    let other_chain = not (message.chain_id == 10) in
    let bad_statement = not (statement_known message.statement) in
    let has_id = is_some message.request_id in
    let bad_resources = not (length message.resources == 1) in
    let (h, resources) =
      or_false
        (differs || other_domain || other_uri || bad_nonce || other_chain || bad_statement
          || has_id)
        bad_resources (not-true _ h) in
    let (h, _) =
      or_false (differs || other_domain || other_uri || bad_nonce || other_chain || bad_statement)
        has_id h in
    let (h, _) =
      or_false (differs || other_domain || other_uri || bad_nonce || other_chain) bad_statement h in
    let (h, chain) = or_false (differs || other_domain || other_uri || bad_nonce) other_chain h in
    let (h, _) = or_false (differs || other_domain || other_uri) bad_nonce h in
    let (h, same_uri) = or_false (differs || other_domain) other_uri h in
    let (same, same_domain) = or_false differs other_domain h in
    (
      (=?_iff (env.show_message message) text).0 (not-false _ same),
      (=?_iff message.domain domain).0 (not-false _ same_domain),
      (=?_iff message.uri uri).0 (not-false _ same_uri),
      (==_iff message.chain_id 10).0 (not-false _ chain),
      (==_iff (length message.resources) 1).0 (not-false _ resources),
    )

parse_fid_bounds :
    (resource : Bytes) (fid : ℕ)
    → parse_fid resource ≡ ok fid
    → (1 ≤ fid) × (fid ≤ 9_007_199_254_740_991)
unfolding parse_fid
parse_fid_bounds resource fid h =
    on_ok (ok_or (strip_prefix (codes "farcaster://fid/") resource) _) _ h λ digits _ h.
      let kept = without_slash digits in
      on_pass (first_is (λ c. c == b'0') kept || length kept == 0 || not (all is_ascii_digit kept))
        _ _ h
        λ _ h. on_ok (ok_or (from_str_radix 10 kept) _) _ h λ n _ h.
          on_pass (n == 0 || ltb max_fid n) _ _ h
            λ within h. let same : n ≡ fid = ok-injective h in ground (arith, within, same)

pub parse_authority-Bound :
    (env : Env) (proof : SignedProof) (domain uri : Bytes) (parsed : ParsedProof)
    → parse_authority env proof domain uri ≡ ok parsed
    → Bound env proof domain uri parsed
unfolding parse_authority
parse_authority-Bound env proof domain uri parsed h =
    on_pass
      (ltb max_message_bytes (length proof.message) || not (all (λ b. ltb b 128) proof.message)) _ _
      h
      λ _ h. on_ok (ok_or (env.parse_message proof.message) _) _ h λ message read h.
        on_pass (not (is_bound env proof.message domain uri message)) _ _ h λ bound h.
          on_ok (parse_fid (first_resource message.resources)) _ h λ fid named h.
            on_ok (parse_signature env proof.signature) _ h λ signature _ h.
              let (shown, same_domain, same_uri, chain, one) =
                is_bound_sound env proof.message domain uri message (not-false _ bound) in
              subst (Bound env proof domain uri) (ok-injective h) (record {
                is_parsed = ok_or-some (env.parse_message proof.message) _ read;
                shown = shown;
                same_domain = same_domain;
                same_uri = same_uri;
                on_optimism = chain;
                one_resource = one;
                names_fid = named;
                fid_range = parse_fid_bounds (first_resource message.resources) fid named;
                hashed = refl;
              })

-- A message of the time of the challenge, and a challenge that is open.
pub record Timely (message : Message) (challenge : Challenge) (now : ℕ) : Type 0 where
  pub same_nonce : message.nonce ≡ challenge.nonce
  pub lifetime :
      (challenge.created_at < challenge.expires_at)
      × (challenge.expires_at ≤ challenge.created_at + 600)
  pub is_open : (challenge.created_at ≤ now) × (now < challenge.expires_at)
  pub issued : ℕ
  pub issued_at : message.issued_at.unix_timestamp ≡ pos issued
  pub issued_in_time :
      (challenge.created_at ≤ issued + 60) × (issued ≤ now + 60) × (issued < challenge.expires_at)
  pub expiry : Time
  pub expires : message.expiration_time ≡ some expiry
  pub expires_exactly : (expiry.unix_timestamp ≡ pos challenge.expires_at) × (expiry.nanosecond ≡ 0)
  pub starts_exactly :
      (start : Time)
      → message.not_before ≡ some start
      → (start.unix_timestamp ≡ pos challenge.created_at) × (start.nanosecond ≡ 0)

is_exactly_sound :
    (time : Time) (seconds : ℕ)
    → seconds < 2 ^ 63
    → is_exactly time seconds ≡ true
    → (time.unix_timestamp ≡ pos seconds) × (time.nanosecond ≡ 0)
unfolding is_exactly
is_exactly_sound time seconds small h = go time.unix_timestamp time.nanosecond h
  where
    go :
        (unix : ℤ) (nanosecond : ℕ)
        → (elim unix [
          | pos n ↦ n == seconds && ltb seconds (2 ^ 63) && nanosecond == 0
          | negsuc n ↦ n + seconds == 2 ^ 64 - 1 && leb (2 ^ 63) seconds && nanosecond == 0
        ])
          ≡ true
        → (unix ≡ pos seconds) × (nanosecond ≡ 0)
    go (pos n) nanosecond h = ground (arith, h)
    go (negsuc n) nanosecond h = absurd (ground (arith, h, small))

validate_challenge_sound :
    (env : Env) (challenge : Challenge)
    → validate_challenge env challenge ≡ ok tt
    → (challenge.created_at < challenge.expires_at)
      × (challenge.expires_at ≤ challenge.created_at + 600)
      × (challenge.expires_at < 2 ^ 63)
unfolding validate_challenge lifetime_valid timestamp
validate_challenge_sound env challenge h =
    on_pass
      (not (nonce_valid challenge.nonce)
        || not (lifetime_valid challenge.created_at challenge.expires_at))
      _ _ h
      λ valid h. on_ok (timestamp env challenge.created_at) _ h λ _ _ h.
        on_ok (timestamp env challenge.expires_at) _ h λ _ dated h.
          on_pass (not (ltb challenge.expires_at (2 ^ 63))) _ _ dated
            λ small _. ground (arith, valid, small)

-- The test of `not_before`.
starts_sound :
    (o : Option Time) (seconds : ℕ)
    → seconds < 2 ^ 63
    → map_or false (λ start. not (is_exactly start seconds)) o ≡ false
    → (start : Time) → o ≡ some start
    → (start.unix_timestamp ≡ pos seconds) × (start.nanosecond ≡ 0)
starts_sound o seconds small h start e =
    is_exactly_sound start seconds small (not-false _ (rw e at h))

to_u64-some : (t : ℤ) (n : ℕ) → to_u64 t ≡ some n → t ≡ pos n
unfolding to_u64
to_u64-some (pos m) n h = ap pos (cc h)
to_u64-some (negsuc m) n h = cc

-- An accepted proof is the text that was signed for this application on Optimism, names one account in
-- the range of JavaScript's safe integers, and answers this challenge: it has its nonce, it was issued in
-- its time but for a minute of skew and not after the present but for that minute, it expires exactly when
-- the challenge does, and the challenge is open and lasts at most ten minutes.
pub parse_sound :
    (env : Env) (proof : SignedProof) (challenge : Challenge) (domain uri : Bytes) (now : ℕ)
    (parsed : ParsedProof)
    → parse env proof challenge domain uri now ≡ ok parsed
    → Bound env proof domain uri parsed × Timely parsed.message challenge now
unfolding parse check_times later_by
parse_sound env proof challenge domain uri now parsed h =
    on_ok (validate_challenge env challenge) _ h λ u valid h.
      on_pass (ltb now challenge.created_at || leb challenge.expires_at now) _ _ h λ opened h.
        on_ok (parse_authority env proof domain uri) _ h λ p read h.
          on_pass (not (p.message.nonce =? challenge.nonce)) _ _ h λ nonce h.
            on_ok (check_times p.message challenge now) _ h λ v timed h.
              on_ok (ok_or (to_u64 p.message.issued_at.unix_timestamp) _) _ timed
                λ issued is_issued timed.
                  on_pass
                    (ltb issued (challenge.created_at - clock_skew_seconds)
                      || ltb (later_by clock_skew_seconds now) issued
                      || leb challenge.expires_at issued)
                    _ _ timed
                    λ in_time timed.
                      on_ok (ok_or p.message.expiration_time _) _ timed λ expiry is_expiry timed.
                        on_pass (not (is_exactly expiry challenge.expires_at)) _ _ timed
                          λ exact starts.
                            let (lasts, short, small) =
                              validate_challenge_sound env challenge valid in
                            subst
                              (λ (q : ParsedProof).
                                Bound env proof domain uri q × Timely q.message challenge now)
                              (ok-injective h)
                              (
                                parse_authority-Bound env proof domain uri p read,
                                record {
                                  same_nonce =
                                      (=?_iff p.message.nonce challenge.nonce).0
                                        (not-false _ nonce);
                                  lifetime = (lasts, short);
                                  is_open = ground (arith, opened);
                                  issued = issued;
                                  issued_at = to_u64-some _ issued (ok_or-some _ _ is_issued);
                                  issued_in_time = ground (arith, in_time);
                                  expiry = expiry;
                                  expires = ok_or-some p.message.expiration_time _ is_expiry;
                                  expires_exactly =
                                      is_exactly_sound expiry challenge.expires_at small
                                        (not-false _ exact);
                                  starts_exactly =
                                      starts_sound p.message.not_before challenge.created_at
                                        (omega (arith, lasts, small)) (passed _ _ starts);
                                },
                              )
