-- ===== src/Farcaster/Message.antt =====
-- crates/psky-farcaster-auth/src/message.rs: the signed message and what it is bound to.
pub mod Bound
use psky.Prelude.{
  ℕ, ◌+◌, ◌-◌, ◌*◌, ◌^◌, min, Bool, true, false, not, ◌&&◌, ◌||◌, Option, none, some, Bytes,
  bytes_ord, ◌=?◌, Result, ok, err, ◌>>=◌, ◌>>◌, fail_if, ok_or, map_or, is_some, List, [], ◌∷◌,
  ◌++◌, leb, ltb, ◌==◌, if◌then◌else◌, length, all, drop, any,
}
use psky.Prelude.Int.{ℤ, pos, negsuc}
use psky.Prelude.Text.{
  codes, is_ascii_alphanumeric, is_ascii_digit, strip_prefix, ends_with, first_is, decimal,
}
use psky.Prelude.Text.Radix.{from_str_radix}
use psky.Farcaster.Types.{
  AuthError, invalid_challenge, invalid_message, invalid_signature, unsupported_wallet, Challenge,
  SignedProof, Time, Message, ParsedProof, Env,
}

abbrev pub max_challenge_seconds : ℕ
max_challenge_seconds = 600

abbrev pub max_message_bytes : ℕ
max_message_bytes = 8192

abbrev pub max_signature_bytes : ℕ
max_signature_bytes = 4096

abbrev pub max_fid : ℕ
max_fid = 9_007_199_254_740_991

abbrev pub clock_skew_seconds : ℕ
clock_skew_seconds = 60

unfoldable pub nonce_valid : Bytes → Bool
nonce_valid nonce =
    leb 16 (length nonce) && leb (length nonce) 128 && all is_ascii_alphanumeric nonce

-- `matches!(lifetime, Some(1..=MAX_CHALLENGE_SECONDS))` of a checked subtraction.
unfoldable pub lifetime_valid : ℕ → ℕ → Bool
lifetime_valid created_at expires_at =
    leb created_at expires_at
    && leb 1 (expires_at - created_at)
    && leb (expires_at - created_at) max_challenge_seconds

unfoldable pub timestamp : Env → ℕ → Result AuthError Bytes
timestamp env seconds = do
  fail_if (not (ltb seconds (2 ^ 63))) invalid_challenge
  ok_or (env.format_rfc3339 seconds) invalid_challenge

unfoldable pub validate_challenge : Env → Challenge → Result AuthError (Unit {0})
unfolding nonce_valid lifetime_valid timestamp
validate_challenge env challenge = do
  fail_if
      (not (nonce_valid challenge.nonce)
        || not (lifetime_valid challenge.created_at challenge.expires_at))
      invalid_challenge
  created ← timestamp env challenge.created_at
  expires ← timestamp env challenge.expires_at
  ok tt

-- `u64::try_from` of an `i64`.
unfoldable pub to_u64 : ℤ → Option ℕ
to_u64 (pos n) = some n
to_u64 (negsuc n) = none

-- `unix_timestamp() != seconds as i64 || nanosecond() != 0`, negated; the cast wraps.
unfoldable pub is_exactly : Time → ℕ → Bool
is_exactly time seconds = elim time.unix_timestamp [
  | pos n ↦ n == seconds && ltb seconds (2 ^ 63) && time.nanosecond == 0
  | negsuc n ↦ n + seconds == 2 ^ 64 - 1 && leb (2 ^ 63) seconds && time.nanosecond == 0
]

unfoldable pub statement_known : Option Bytes → Bool
statement_known none = false
statement_known (some statement) =
    statement =? codes "Farcaster Auth" || statement =? codes "Farcaster Connect"

-- The checks on the message that was parsed.
unfoldable pub is_bound : Env → Bytes → Bytes → Bytes → Message → Bool
unfolding nonce_valid statement_known
is_bound env text domain uri message = not (
    not (env.show_message message =? text)
    || not (message.domain =? domain)
    || not (message.uri =? uri)
    || not (nonce_valid message.nonce)
    || not (message.chain_id == 10)
    || not (statement_known message.statement)
    || is_some message.request_id
    || not (length message.resources == 1))

-- `strip_suffix('/').unwrap_or`
unfoldable pub without_slash : Bytes → Bytes
without_slash [] = []
without_slash (c ∷ []) = if c == b'/' then [] else c ∷ []
without_slash (c ∷ d ∷ s) = c ∷ without_slash (d ∷ s)

-- The only resource.
unfoldable pub first_resource : List Bytes → Bytes
first_resource [] = []
first_resource (resource ∷ rest) = resource

unfoldable pub parse_fid : Bytes → Result AuthError ℕ
unfolding without_slash
parse_fid resource = do
  digits ← ok_or (strip_prefix (codes "farcaster://fid/") resource) invalid_message
  let digits = without_slash digits
  fail_if
      (first_is (λ c. c == b'0') digits || length digits == 0 || not (all is_ascii_digit digits))
      invalid_message
  fid ← ok_or (from_str_radix 10 digits) invalid_message
  fail_if (fid == 0 || ltb max_fid fid) invalid_message
  ok fid

-- `[0x64, 0x92].repeat(16)`
unfoldable pub erc6492_suffix : Bytes
erc6492_suffix =
    0x64 ∷ 0x92 ∷ 0x64 ∷ 0x92 ∷ 0x64 ∷ 0x92 ∷ 0x64 ∷ 0x92 ∷ 0x64 ∷ 0x92 ∷ 0x64 ∷ 0x92 ∷ 0x64 ∷ 0x92
    ∷ 0x64 ∷ 0x92 ∷ 0x64 ∷ 0x92 ∷ 0x64 ∷ 0x92 ∷ 0x64 ∷ 0x92 ∷ 0x64 ∷ 0x92 ∷ 0x64 ∷ 0x92 ∷ 0x64
    ∷ 0x92 ∷ 0x64 ∷ 0x92 ∷ 0x64 ∷ 0x92 ∷ []

unfoldable pub parse_signature : Env → Bytes → Result AuthError Bytes
unfolding erc6492_suffix
parse_signature env text = do
  digits ← ok_or (strip_prefix (codes "0x") text) invalid_signature
  fail_if (length digits == 0 || ltb (max_signature_bytes * 2) (length digits)) invalid_signature
  signature ← ok_or (env.hex_decode digits) invalid_signature
  fail_if (ends_with erc6492_suffix signature) unsupported_wallet
  ok signature

-- What is hashed: the text behind its length.
unfoldable pub prefixed : Bytes → Bytes
prefixed text =
    (0x19 ∷ codes "Ethereum Signed Message:") ++ (0x0a ∷ (decimal (length text) ++ text))

unfoldable pub parse_authority : Env → SignedProof → Bytes → Bytes → Result AuthError ParsedProof
unfolding is_bound first_resource parse_fid parse_signature prefixed
parse_authority env proof domain uri = do
  fail_if (ltb max_message_bytes (length proof.message) || not (all (λ b. ltb b 128) proof.message))
      invalid_message
  message ← ok_or (env.parse_message proof.message) invalid_message
  fail_if (not (is_bound env proof.message domain uri message)) invalid_message
  fid ← parse_fid (first_resource message.resources)
  signature ← parse_signature env proof.signature
  ok (record {
    message = message;
    fid = fid;
    signature = signature;
    digest = env.keccak256 (prefixed proof.message);
  })

-- `u64::saturating_add`, here of a clock.
unfoldable pub later_by : ℕ → ℕ → ℕ
later_by seconds now = min (now + seconds) (2 ^ 64 - 1)

-- The times of the message against the challenge and the clock; `-` stops at 0 as `saturating_sub` does.
unfoldable pub check_times : Message → Challenge → ℕ → Result AuthError (Unit {0})
unfolding to_u64 is_exactly later_by
check_times message challenge now = do
  issued ← ok_or (to_u64 message.issued_at.unix_timestamp) invalid_message
  fail_if
      (ltb issued (challenge.created_at - clock_skew_seconds)
        || ltb (later_by clock_skew_seconds now) issued
        || leb challenge.expires_at issued)
      invalid_message
  expiry ← ok_or message.expiration_time invalid_message
  fail_if (not (is_exactly expiry challenge.expires_at)) invalid_message
  fail_if
      (map_or false (λ not_before. not (is_exactly not_before challenge.created_at))
        message.not_before)
      invalid_message

unfoldable pub parse :
    Env → SignedProof → Challenge → Bytes → Bytes → ℕ → Result AuthError ParsedProof
unfolding validate_challenge parse_authority check_times
parse env proof challenge domain uri now = do
  validate_challenge env challenge
  fail_if (ltb now challenge.created_at || leb challenge.expires_at now) invalid_challenge
  parsed ← parse_authority env proof domain uri
  fail_if (not (parsed.message.nonce =? challenge.nonce)) invalid_message
  check_times parsed.message challenge now
  ok parsed

-- The recovery byte of a signature of 65 bytes.
unfoldable pub recovery_valid : Bytes → Bool
recovery_valid signature =
    any (λ b. first_is (λ c. c == b) (drop 64 signature)) (0 ∷ 1 ∷ 27 ∷ 28 ∷ [])

unfoldable pub verify_eoa : Env → ParsedProof → Result AuthError (Unit {0})
unfolding recovery_valid
verify_eoa env proof = do
  fail_if (not (length proof.signature == 65)) invalid_signature
  fail_if (not (recovery_valid proof.signature)) invalid_signature
  fail_if (not (env.verify_eip191 proof.message proof.signature)) invalid_signature
