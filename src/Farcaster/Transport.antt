-- ===== src/Farcaster/Transport.antt =====
-- `send`, `rpc` and `eth_call` of crates/psky-farcaster-auth/src/client.rs.
use psky.Prelude.{
  ℕ, ◌+◌, ◌*◌, Bool, true, false, not, ◌||◌, Option, none, some, Bytes, bytes_ord, ◌=?◌, Result, ok,
  err, ◌>>=◌, ◌>>◌, fail_if, ok_or, and_then, map_or, is_some, [], ◌++◌, ltb, ◌==◌, length,
}
use psky.Prelude.Int.{pos}
use psky.Prelude.Text.{codes}
use psky.Json.{Value, Values, Fields, field, Number, get, as_str, as_u64}
use psky.Http.{Body, end, broken, chunk, Response, failed, answered}
use psky.Farcaster.Types.{
  AuthError, unavailable, invalid_chain_evidence, AuthClient, Request, post, Env,
}
use psky.Farcaster.Words.{decode_hex}

abbrev pub max_response_bytes : ℕ
max_response_bytes = 64 * 1024

-- The loop over the chunks, behind `bytes`.
unfoldable pub read_chunks : Body → Bytes → Result AuthError Bytes
read_chunks end bytes = ok bytes
read_chunks (broken is_timeout) bytes = err unavailable
read_chunks (chunk more rest) bytes = do
  fail_if (ltb max_response_bytes (length bytes + length more)) unavailable
  read_chunks rest (bytes ++ more)

unfoldable pub read_answer : Response → Result AuthError (ℕ × Bytes)
unfolding read_chunks
read_answer (failed is_timeout) = err unavailable
read_answer (answered status content_length body) = do
  fail_if (map_or false (ltb max_response_bytes) content_length) unavailable
  bytes ← read_chunks body []
  ok (status, bytes)

unfoldable pub send : Env → Request → Result AuthError (ℕ × Bytes)
unfolding read_answer
send env request = read_answer (env.answer request)

abbrev pub text : Bytes → Value
text s = Value.string s

-- The body of a call, its names in order.
unfoldable pub call_body : Bytes → Value → Value
call_body method params = Value.object (
    field (codes "id") (Value.number (Number.integer (pos 1))) (
      field (codes "jsonrpc") (text (codes "2.0"))
        (field (codes "method") (text method) (field (codes "params") params Fields.end))))

abbrev is_null : Value → Bool
is_null Value.null = true
is_null _ = false

abbrev equals_text : Bytes → Option Bytes → Bool
equals_text s none = false
equals_text s (some t) = t =? s

abbrev equals_number : ℕ → Option ℕ → Bool
equals_number n none = false
equals_number n (some m) = m == n

-- The result in a response.
unfoldable pub read_result : Value → Result AuthError Value
read_result value = do
  fail_if
      (not (equals_text (codes "2.0") (and_then (get (codes "jsonrpc") value) as_str))
        || not (equals_number 1 (and_then (get (codes "id") value) as_u64))
        || is_some (get (codes "error") value))
      invalid_chain_evidence
  result ← ok_or (get (codes "result") value) invalid_chain_evidence
  fail_if (is_null result) invalid_chain_evidence
  ok result

unfoldable pub rpc : Env → AuthClient → Bytes → Value → Result AuthError Value
unfolding send call_body read_result
rpc env client method params = do
  (status, response) ← send env (post client.rpc (env.to_string (call_body method params)))
  fail_if (not (status == 200)) unavailable
  value ← ok_or (env.from_slice response) invalid_chain_evidence
  read_result value

-- `as_str().ok_or(InvalidChainEvidence)`
unfoldable pub text_of : Value → Result AuthError Bytes
text_of value = ok_or (as_str value) invalid_chain_evidence

-- `field` of a value.
unfoldable pub text_field : Value → Bytes → Result AuthError Bytes
text_field value key = ok_or (and_then (get key value) as_str) invalid_chain_evidence

unfoldable pub eth_call : Env → AuthClient → Bytes → Bytes → Value → Result AuthError Bytes
unfolding rpc text_of
eth_call env client to data_bytes block = do
  result ← rpc env client (codes "eth_call") (
      Value.array (
        Values.cons
          (Value.object (
            field (codes "data") (text (codes "0x" ++ env.hex_encode data_bytes))
              (field (codes "to") (text to) Fields.end)))
          (Values.cons block Values.nil)))
  found ← text_of result
  decode_hex env found
