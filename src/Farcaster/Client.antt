-- ===== src/Farcaster/Client.antt =====
-- The operations of the client in crates/psky-farcaster-auth/src/client.rs.
pub mod Finalized
pub mod Sound
pub mod Recheck
pub mod Verdict
use psky.Prelude.{
  ℕ, ◌+◌, ◌-◌, ◌*◌, ◌^◌, Bool, true, false, not, ◌&&◌, ◌||◌, Option, none, some, Bytes, bytes_ord,
  ◌=?◌, Result, ok, err, ◌>>=◌, ◌>>◌, fail_if, ok_or, map_or, map, [], ◌∷◌, ◌++◌, leb, ltb, ◌==◌,
  if◌then◌else◌, length, take, drop, all,
}
use psky.Prelude.Text.{codes, is_ascii_uppercase, starts_with}
use psky.Json.{Value, Values, Fields, field}
use psky.Farcaster.Types.{
  AuthError, invalid_config, invalid_relay_response, channel_expired, unavailable,
  invalid_signature, unsupported_wallet, invalid_chain_evidence, unauthorized, Challenge, Channel,
  SignedProof, ChannelStatus, pending, completed, ProofKind, custody, auth_address, WalletKind, eoa,
  erc1271, VerifiedIdentity, ParsedProof, AuthClient, Status, post, get, Env,
}
use psky.Farcaster.Message.{
  max_message_bytes, max_signature_bytes, validate_challenge, timestamp, later_by, parse_authority,
  parse, verify_eoa,
}
use psky.Farcaster.Words.{
  quantity, decode_hex, word_u64, id_of_calldata, custody_of_calldata, auth_key_calldata,
  erc1271_calldata,
}
use psky.Farcaster.Urls.{valid_channel, validate_auth_url}
use psky.Farcaster.Transport.{text, send, rpc, eth_call, text_of, text_field}

abbrev pub max_finalized_age_seconds : ℕ
max_finalized_age_seconds = 3600

abbrev pub id_registry : Bytes
id_registry = codes "0x00000000fc6c5f01fc30151999387bb99a9f489b"

abbrev pub key_registry : Bytes
key_registry = codes "0x00000000fc1237824fb747abde0ff18990e59b7e"

unfoldable pub start : Env → AuthClient → Challenge → Result AuthError Channel
start env client challenge = do
  validate_challenge env challenge
  not_before ← timestamp env challenge.created_at
  expiration ← timestamp env challenge.expires_at
  let body = Value.object (
      field (codes "acceptAuthAddress") (Value.bool true) (
        field (codes "domain") (text client.config.domain) (
          field (codes "expirationTime") (text expiration) (
            field (codes "nonce") (text challenge.nonce) (
              field (codes "notBefore") (text not_before)
                (field (codes "siweUri") (text client.config.uri) Fields.end))))))
  url ← ok_or (env.join client.relay (codes "v1/channel")) invalid_config
  (status, response) ← send env (post url (env.to_string body))
  fail_if (not (status == 201)) unavailable
  created ← ok_or (env.decode_created response) invalid_relay_response
  fail_if (not (created.nonce =? challenge.nonce) || not (valid_channel created.token))
      invalid_relay_response
  validate_auth_url env created.url created.token
  ok (record { channel_token = created.token; auth_url = created.url })

-- The proof of a channel that is completed.
unfoldable pub read_completed : Status → Result AuthError ChannelStatus
read_completed answer = do
  message ← ok_or answer.message invalid_relay_response
  signature ← ok_or answer.signature invalid_relay_response
  fail_if
      (ltb max_message_bytes (length message)
        || ltb (max_signature_bytes * 2 + 2) (length signature))
      invalid_relay_response
  ok (completed (record { message = message; signature = signature }))

-- The match on the status and the state.
unfoldable pub read_status : ℕ → Status → Result AuthError ChannelStatus
unfolding read_completed
read_status status answer =
    if status == 202 && answer.state =? codes "pending"
    then ok pending
    else if status == 200 && answer.state =? codes "completed"
    then read_completed answer
    else err invalid_relay_response

unfoldable pub channel_status : Env → AuthClient → Bytes → Result AuthError ChannelStatus
unfolding read_status
channel_status env client channel_token = do
  fail_if (not (valid_channel channel_token)) invalid_relay_response
  url ← ok_or (env.join client.relay (codes "v1/channel/status")) invalid_config
  (status, response) ← send env (get url channel_token)
  fail_if (status == 401) channel_expired
  fail_if (not (status == 200 || status == 202)) unavailable
  answer ← ok_or (env.decode_status response) invalid_relay_response
  read_status status answer

-- A finalized block: its number and its hash.
unfoldable pub finalized_block : Env → AuthClient → ℕ → Result AuthError (ℕ × Bytes)
finalized_block env client now = do
  chain ← rpc env client (codes "eth_chainId") (Value.array Values.nil)
  chain_text ← text_of chain
  chain_id ← quantity chain_text
  fail_if (not (chain_id == 10)) invalid_chain_evidence
  block ← rpc env client (codes "eth_getBlockByNumber") (
      Value.array
        (Values.cons (text (codes "finalized")) (Values.cons (Value.bool false) Values.nil)))
  number_text ← text_field block (codes "number")
  number ← quantity number_text
  block_hash ← text_field block (codes "hash")
  hash_bytes ← decode_hex env block_hash
  fail_if (not (length hash_bytes == 32)) invalid_chain_evidence
  time_text ← text_field block (codes "timestamp")
  block_time ← quantity time_text
  fail_if
      (number == 0
        || ltb (later_by 60 now) block_time
        || ltb max_finalized_age_seconds (now - block_time))
      invalid_chain_evidence
  ok (number, block_hash)

-- `u8::to_ascii_lowercase` and `eq_ignore_ascii_case`.
unfoldable pub to_lowercase : ℕ → ℕ
to_lowercase c = if is_ascii_uppercase c then c + 32 else c

unfoldable pub eq_ignore_ascii_case : Bytes → Bytes → Bool
unfolding to_lowercase
eq_ignore_ascii_case a b = map to_lowercase a =? map to_lowercase b

-- The evidence falls behind what was checked before.
unfoldable pub is_behind : Option VerifiedIdentity → ℕ → Bytes → Bool
unfolding eq_ignore_ascii_case
is_behind none number block_hash = false
is_behind (some previous) number block_hash =
    ltb number previous.checked_block
    || number == previous.checked_block && not (eq_ignore_ascii_case block_hash previous.block_hash)

-- `json!({ "blockHash": .., "requireCanonical": true })`
unfoldable pub block_selector : Bytes → Value
block_selector block_hash = Value.object (
    field (codes "blockHash") (text block_hash)
      (field (codes "requireCanonical") (Value.bool true) Fields.end))

unfoldable pub address_text : Env → ParsedProof → Bytes
address_text env parsed = codes "0x" ++ env.hex_encode parsed.message.address

abbrev pub all_zero : Bytes → Bool
all_zero bytes = all (λ b. b == 0) bytes

-- The magic value of ERC-1271 in a word.
unfoldable pub is_magic : Bytes → Bool
is_magic result =
    length result == 32
    && take 4 result =? (0x16 ∷ 0x26 ∷ 0xba ∷ 0x7e ∷ [])
    && all_zero (drop 4 result)

abbrev pub check_eoa : Env → ParsedProof → Result AuthError WalletKind
check_eoa env parsed = do verify_eoa env parsed; ok eoa

unfoldable pub check_contract :
    Env → AuthClient → ParsedProof → Value → Bytes → Result AuthError WalletKind
unfolding address_text is_magic
check_contract env client parsed selector code = do
  fail_if (starts_with (0xef ∷ 0x01 ∷ 0x00 ∷ []) code) unsupported_wallet
  result ←
      eth_call env client (address_text env parsed)
        (erc1271_calldata env parsed.digest parsed.signature) selector
  fail_if (not (is_magic result)) invalid_signature
  ok erc1271

-- The signature, by the code that stands at the address.
unfoldable pub check_wallet : Env → AuthClient → ParsedProof → Value → Result AuthError WalletKind
unfolding address_text check_contract
check_wallet env client parsed selector = do
  code_value ←
      rpc env client (codes "eth_getCode") (
        Value.array
          (Values.cons (text (address_text env parsed)) (Values.cons selector Values.nil)))
  code_text ← text_of code_value
  code ← decode_hex env code_text
  if length code == 0 then check_eoa env parsed else check_contract env client parsed selector code

-- The custody of the account, which is the expected one where one is expected.
unfoldable pub check_custody :
    Env → AuthClient → ParsedProof → Option VerifiedIdentity → Value → Result AuthError Bytes
check_custody env client parsed expected_identity selector = do
  word ← eth_call env client id_registry (custody_of_calldata env parsed.fid) selector
  fail_if (not (length word == 32) || not (all_zero (take 12 word))) invalid_chain_evidence
  fail_if (all_zero (drop 12 word)) unauthorized
  let custody_address = codes "0x" ++ env.hex_encode (drop 12 word)
  fail_if
      (map_or false
        (λ (expected : VerifiedIdentity). not (expected.custody_address =? custody_address))
        expected_identity)
      unauthorized
  ok custody_address

-- The signing address is the custody of the account.
unfoldable pub check_owner :
    Env → AuthClient → ParsedProof → Bytes → Value → Result AuthError ProofKind
unfolding address_text
check_owner env client parsed custody_address selector = do
  word ← eth_call env client id_registry (id_of_calldata env parsed.message.address) selector
  fail_if (not (length word == 32)) invalid_chain_evidence
  owned ← word_u64 word
  fail_if (not (owned == parsed.fid) || not (custody_address =? address_text env parsed))
      unauthorized
  ok custody

-- The permission of the signing address.
unfoldable pub check_permission :
    Env → AuthClient → ParsedProof → Bytes → Value → Result AuthError ProofKind
unfolding check_owner
check_permission env client parsed custody_address selector = do
  auth ←
      eth_call env client key_registry (auth_key_calldata env parsed.fid parsed.message.address)
        selector
  fail_if (not (length auth == 64)) invalid_chain_evidence
  key_state ← word_u64 (take 32 auth)
  key_type ← word_u64 (drop 32 auth)
  fail_if (ltb 2 key_state || ltb (2 ^ 32 - 1) key_type) invalid_chain_evidence
  if key_state == 1 && key_type == 2
      then ok auth_address
      else check_owner env client parsed custody_address selector

unfoldable pub verify_authority :
    Env → AuthClient → ParsedProof → ℕ → Option VerifiedIdentity → Result AuthError VerifiedIdentity
unfolding finalized_block is_behind block_selector check_wallet check_custody check_permission
verify_authority env client parsed now expected_identity = do
  (number, block_hash) ← finalized_block env client now
  fail_if (is_behind expected_identity number block_hash) invalid_chain_evidence
  let selector = block_selector block_hash
  wallet_kind ← check_wallet env client parsed selector
  custody_address ← check_custody env client parsed expected_identity selector
  proof_kind ← check_permission env client parsed custody_address selector
  ok (record {
    fid = parsed.fid;
    address = address_text env parsed;
    custody_address = custody_address;
    wallet_kind = wallet_kind;
    proof_kind = proof_kind;
    checked_block = number;
    block_hash = block_hash;
    checked_at = now;
  })

unfoldable pub verify :
    Env → AuthClient → SignedProof → Challenge → ℕ → Result AuthError VerifiedIdentity
unfolding verify_authority
verify env client proof challenge now = do
  parsed ← parse env proof challenge client.config.domain client.config.uri now
  verify_authority env client parsed now none

unfoldable pub recheck_identity :
    Env → AuthClient → VerifiedIdentity → SignedProof → ℕ → Result AuthError VerifiedIdentity
unfolding verify_authority
recheck_identity env client identity proof now = do
  parsed ← parse_authority env proof client.config.domain client.config.uri
  fail_if (not (parsed.fid == identity.fid) || not (address_text env parsed =? identity.address))
      unauthorized
  custody_bytes ← decode_hex env identity.custody_address
  fail_if (not (length custody_bytes == 20)) unauthorized
  fail_if (ltb now identity.checked_at || identity.checked_block == 0) invalid_chain_evidence
  hash_bytes ← decode_hex env identity.block_hash
  fail_if (not (length hash_bytes == 32)) invalid_chain_evidence
  verify_authority env client parsed now (some identity)
