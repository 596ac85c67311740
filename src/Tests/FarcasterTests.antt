-- ===== src/Tests/FarcasterTests.antt =====
-- Runs of the sign-in against a registry that answers by the name of the call. Hexadecimal digits stand
-- for themselves, and a hash is what it is the hash of.
use psky.Prelude.{
  ℕ, ◌+◌, ◌^◌, ◌<◌, ◌≤◌, ◌≡◌, refl, inl, inr, Bool, true, false, Option, none, some, Bytes,
  bytes_ord, ◌=?◌, ok, err, List, [], ◌∷◌, ◌++◌, arith, take, drop, if◌then◌else◌,
}
use psky.Prelude.Int.{pos}
use psky.Prelude.Text.{codes}
use psky.Json.{Value, Values, Fields, field, Number}
use psky.Url.{Url, domain}
use psky.Http.{Response, answered, chunk, end}
use psky.Farcaster.Types.{
  invalid_signature, Challenge, SignedProof, Time, Message, ParsedProof, VerifiedIdentity,
  auth_address, eoa, AuthClient, Request, post, get, Env,
}
use psky.Farcaster.Message.{parse}
use psky.Farcaster.Message.Bound.{Bound, Timely, parse_sound}
use psky.Farcaster.Client.Finalized.{Finalized, NotBehind}
use psky.Farcaster.Client.{finalized_block, is_behind, verify}
use psky.Farcaster.Client.Sound.{Verified, verify-Verified}
use psky.Farcaster.Client.Recheck.{Advances, recheck_identity_sound}
use psky.Farcaster.Client.Verdict.{IsOperational, verify_authority_verdict}

abbrev repeat : ℕ → ℕ → Bytes
repeat ℕ.zero c = []
repeat (ℕ.suc n) c = c ∷ repeat n c

abbrev time : ℕ → Time
time seconds = record { unix_timestamp = pos seconds; nanosecond = 0 }

abbrev challenge : Challenge
challenge = record { nonce = codes "0123456789ABCDEF"; created_at = 1000; expires_at = 1300 }

abbrev message : Message
message = record {
  domain = codes "n";
  address = codes "a";
  statement = some (codes "Farcaster Auth");
  uri = codes "https://n/";
  chain_id = 10;
  nonce = codes "0123456789ABCDEF";
  issued_at = time 1000;
  expiration_time = some (time 1300);
  not_before = none;
  request_id = none;
  resources = codes "farcaster://fid/5" ∷ [];
}

abbrev signature : Bytes
signature = repeat 64 b'0' ++ 27 ∷ []

abbrev pub proof : SignedProof
proof = record { message = codes "m"; signature = codes "0x" ++ signature }

abbrev hash : Bytes
hash = codes "0x" ++ repeat 32 b'h'

abbrev custody_bytes : Bytes
custody_bytes = repeat 20 b'c'

abbrev block : Value
block = Value.object (
    field (codes "number") (Value.string (codes "0x9")) (
      field (codes "hash") (Value.string hash)
        (field (codes "timestamp") (Value.string (codes "0x3e8")) Fields.end)))

-- What stands under a name in the fields of a call.
abbrev string_of : Value → Bytes
string_of (Value.string s) = s
string_of _ = []

abbrev data_of : Value → Bytes
data_of (Value.array (Values.cons (Value.object (Fields.field _ v rest)) more)) =
    take 6 (string_of v)
data_of _ = []

-- A call is written as its method and the selector of its data.
abbrev show_call : Value → Bytes
show_call
      (Value.object
        (Fields.field _ _ (Fields.field _ _ (Fields.field _ method (Fields.field _ params _))))) =
    string_of method ++ data_of params
show_call _ = []

abbrev result_of : Bytes → Value
result_of call =
    if call =? codes "eth_chainId"
    then Value.string (codes "0xa")
    else if call =? codes "eth_getBlockByNumber"
    then block
    else if call =? codes "eth_getCode"
    then Value.string (codes "0x")
    else if call =? codes "eth_call0xcust"
    then Value.string (codes "0x" ++ (repeat 12 0 ++ custody_bytes))
    else Value.string (codes "0x" ++ (repeat 31 0 ++ (1 ∷ repeat 31 0) ++ (2 ∷ [])))

abbrev pub url : Url
url = record {
  scheme = codes "https";
  username = [];
  password = none;
  host = some (domain (codes "n"));
  host_str = some (codes "n");
  port = none;
  path = codes "/";
  query = none;
  fragment = none;
  text = codes "https://n/";
  authority = codes "n";
  query_pairs = [];
}

abbrev answer : Request → Response
answer (post u body) = answered 200 none (chunk body end)
answer (get u bearer) = answered 401 none end

abbrev env_with : Bool → Env
env_with accepts = record {
  parse_message = λ s. some message;
  show_message = λ m. codes "m";
  verify_eip191 = λ m s. accepts;
  format_rfc3339 = λ n. some [];
  keccak256 = λ s. s;
  hex_encode = λ s. s;
  hex_decode = λ s. some s;
  parse_url = λ s. some url;
  join = λ u s. some u;
  from_slice = λ s. some (
      Value.object (
        field (codes "id") (Value.number (Number.integer (pos 1))) (
          field (codes "jsonrpc") (Value.string (codes "2.0"))
            (field (codes "result") (result_of s) Fields.end))));
  to_string = show_call;
  decode_created = λ s. none;
  decode_status = λ s. none;
  answer = answer;
}

abbrev pub env : Env
env = env_with true

abbrev client : AuthClient
client = record {
  config = record {
    domain = codes "n";
    uri = codes "https://n/";
    relay_url = codes "https://n/";
    optimism_rpc_url = codes "https://n/";
  };
  relay = url;
  rpc = url;
}

abbrev parsed : ParsedProof
parsed = record {
  message = message;
  fid = 5;
  signature = signature;
  digest = (0x19 ∷ codes "Ethereum Signed Message:") ++ (0x0a ∷ codes "1m");
}

abbrev pub identity : VerifiedIdentity
identity = record {
  fid = 5;
  address = codes "0xa";
  custody_address = codes "0x" ++ custody_bytes;
  wallet_kind = eoa;
  proof_kind = auth_address;
  checked_block = 9;
  block_hash = hash;
  checked_at = 1010;
}

parse_sound_example :
    Bound env proof (codes "n") (codes "https://n/") parsed × Timely message challenge 1010
unfolding parse psky.Prelude.Text.Radix.from_str_radix psky.Prelude.Text.decimal
    psky.Prelude.Text.ends_with psky.Prelude.Text.is_ascii_alphanumeric
    psky.Prelude.Text.strip_prefix psky.Prelude.bytes_cmp
parse_sound_example =
    parse_sound env proof challenge (codes "n") (codes "https://n/") 1010 parsed refl

verify-Verified_example :
    (p : ParsedProof) × Bound env proof client.config.domain client.config.uri p
    × Timely p.message challenge 1010
    × Verified env client p 1010 identity
unfolding psky.Farcaster.Words.append_word finalized_block is_behind parse
    psky.Farcaster.Client.address_text psky.Farcaster.Client.block_selector
    psky.Farcaster.Client.check_contract psky.Farcaster.Client.check_custody
    psky.Farcaster.Client.check_owner psky.Farcaster.Client.check_permission
    psky.Farcaster.Client.check_wallet psky.Farcaster.Client.eq_ignore_ascii_case
    psky.Farcaster.Client.is_magic psky.Farcaster.Client.to_lowercase
    psky.Farcaster.Client.verify_authority psky.Farcaster.Message.check_times
    psky.Farcaster.Message.erc6492_suffix psky.Farcaster.Message.first_resource
    psky.Farcaster.Message.is_bound psky.Farcaster.Message.is_exactly
    psky.Farcaster.Message.later_by psky.Farcaster.Message.lifetime_valid
    psky.Farcaster.Message.nonce_valid psky.Farcaster.Message.parse_authority
    psky.Farcaster.Message.parse_fid psky.Farcaster.Message.parse_signature
    psky.Farcaster.Message.prefixed psky.Farcaster.Message.recovery_valid
    psky.Farcaster.Message.statement_known psky.Farcaster.Message.timestamp
    psky.Farcaster.Message.to_u64 psky.Farcaster.Message.validate_challenge
    psky.Farcaster.Message.verify_eoa psky.Farcaster.Message.without_slash
    psky.Farcaster.Transport.call_body psky.Farcaster.Transport.eth_call
    psky.Farcaster.Transport.read_answer psky.Farcaster.Transport.read_chunks
    psky.Farcaster.Transport.read_result psky.Farcaster.Transport.rpc psky.Farcaster.Transport.send
    psky.Farcaster.Transport.text_field psky.Farcaster.Transport.text_of
    psky.Farcaster.Words.auth_key_calldata psky.Farcaster.Words.be_bytes
    psky.Farcaster.Words.custody_of_calldata psky.Farcaster.Words.decode_hex
    psky.Farcaster.Words.erc1271_calldata psky.Farcaster.Words.from_be_bytes
    psky.Farcaster.Words.function_selector psky.Farcaster.Words.id_of_calldata
    psky.Farcaster.Words.quantity psky.Farcaster.Words.zeros psky.Json.as_str psky.Json.as_u64
    psky.Json.get psky.Json.get_field psky.Prelude.Text.Radix.from_str_radix
    psky.Prelude.Text.Radix.read_digits psky.Prelude.Text.Radix.to_digit psky.Prelude.Text.decimal
    psky.Prelude.Text.decimal_from psky.Prelude.Text.ends_with psky.Prelude.Text.is_ascii_alphabetic
    psky.Prelude.Text.is_ascii_alphanumeric psky.Prelude.Text.is_ascii_digit
    psky.Prelude.Text.is_ascii_lowercase psky.Prelude.Text.is_ascii_uppercase
    psky.Prelude.Text.strip_prefix psky.Prelude.bytes_cmp verify psky.Farcaster.Words.word_u64
verify-Verified_example = verify-Verified env client proof challenge 1010 identity refl

recheck_identity_sound_example :
    (p : ParsedProof) × Bound env proof client.config.domain client.config.uri p
    × Verified env client p 1010 identity
    × (identity.fid ≡ identity.fid)
    × (identity.address ≡ identity.address)
    × (identity.custody_address ≡ identity.custody_address)
    × (identity.checked_at ≤ identity.checked_at)
    × Advances identity identity
unfolding psky.Farcaster.Words.append_word finalized_block is_behind
    psky.Farcaster.Client.address_text psky.Farcaster.Client.block_selector
    psky.Farcaster.Client.check_contract psky.Farcaster.Client.check_custody
    psky.Farcaster.Client.check_owner psky.Farcaster.Client.check_permission
    psky.Farcaster.Client.check_wallet psky.Farcaster.Client.eq_ignore_ascii_case
    psky.Farcaster.Client.is_magic psky.Farcaster.Client.recheck_identity
    psky.Farcaster.Client.to_lowercase psky.Farcaster.Client.verify_authority
    psky.Farcaster.Message.erc6492_suffix psky.Farcaster.Message.first_resource
    psky.Farcaster.Message.is_bound psky.Farcaster.Message.later_by
    psky.Farcaster.Message.nonce_valid psky.Farcaster.Message.parse_authority
    psky.Farcaster.Message.parse_fid psky.Farcaster.Message.parse_signature
    psky.Farcaster.Message.prefixed psky.Farcaster.Message.recovery_valid
    psky.Farcaster.Message.statement_known psky.Farcaster.Message.verify_eoa
    psky.Farcaster.Message.without_slash psky.Farcaster.Transport.call_body
    psky.Farcaster.Transport.eth_call psky.Farcaster.Transport.read_answer
    psky.Farcaster.Transport.read_chunks psky.Farcaster.Transport.read_result
    psky.Farcaster.Transport.rpc psky.Farcaster.Transport.send psky.Farcaster.Transport.text_field
    psky.Farcaster.Transport.text_of psky.Farcaster.Words.auth_key_calldata
    psky.Farcaster.Words.be_bytes psky.Farcaster.Words.custody_of_calldata
    psky.Farcaster.Words.decode_hex psky.Farcaster.Words.erc1271_calldata
    psky.Farcaster.Words.from_be_bytes psky.Farcaster.Words.function_selector
    psky.Farcaster.Words.id_of_calldata psky.Farcaster.Words.quantity psky.Farcaster.Words.zeros
    psky.Json.as_str psky.Json.as_u64 psky.Json.get psky.Json.get_field
    psky.Prelude.Text.Radix.from_str_radix psky.Prelude.Text.Radix.read_digits
    psky.Prelude.Text.Radix.to_digit psky.Prelude.Text.decimal psky.Prelude.Text.decimal_from
    psky.Prelude.Text.ends_with psky.Prelude.Text.is_ascii_alphabetic
    psky.Prelude.Text.is_ascii_alphanumeric psky.Prelude.Text.is_ascii_digit
    psky.Prelude.Text.is_ascii_lowercase psky.Prelude.Text.is_ascii_uppercase
    psky.Prelude.Text.strip_prefix psky.Prelude.bytes_cmp psky.Farcaster.Words.word_u64
recheck_identity_sound_example = recheck_identity_sound env client identity proof 1010 identity refl

refused : ¬ IsOperational invalid_signature
refused (inl e) = cc e
refused (inr e) = cc e

verify_authority_verdict_example :
    (number : ℕ) × (block_hash : Bytes) × Finalized (env_with false) client 1010 number block_hash
    × NotBehind (some identity) number block_hash
unfolding psky.Farcaster.Client.verify_authority psky.Farcaster.Message.later_by
    psky.Farcaster.Message.verify_eoa psky.Farcaster.Transport.rpc
    psky.Farcaster.Transport.text_field psky.Farcaster.Transport.text_of
    psky.Farcaster.Words.decode_hex psky.Farcaster.Words.quantity psky.Json.as_str psky.Json.as_u64
    psky.Json.get psky.Prelude.Text.Radix.from_str_radix psky.Prelude.Text.is_ascii_uppercase
    psky.Prelude.Text.strip_prefix psky.Prelude.bytes_cmp
verify_authority_verdict_example =
    verify_authority_verdict (env_with false) client parsed 1010 (some identity) invalid_signature
      refl refused
