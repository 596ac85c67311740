-- ===== src/Farcaster/Words.antt =====
-- The words of the call data in crates/psky-farcaster-auth/src/client.rs.
use psky.Prelude.{
  ℕ, zero, suc, ◌+◌, ◌-◌, ◌*◌, ◌/◌, ◌%◌, not, ◌||◌, Bytes, Result, ok, ◌>>=◌, ◌>>◌, fail_if, ok_or,
  [], ◌∷◌, ◌++◌, ◌==◌, ◌&&◌, ltb, length, take, drop, all,
}
use psky.Prelude.Text.{codes, strip_prefix, first_is}
use psky.Prelude.Text.Radix.{from_str_radix}
use psky.Farcaster.Types.{AuthError, invalid_chain_evidence, Env}

unfoldable pub quantity : Bytes → Result AuthError ℕ
quantity input = do
  digits ← ok_or (strip_prefix (codes "0x") input) invalid_chain_evidence
  fail_if (length digits == 0 || ltb 1 (length digits) && first_is (λ c. c == b'0') digits)
      invalid_chain_evidence
  ok_or (from_str_radix 16 digits) invalid_chain_evidence

unfoldable pub decode_hex : Env → Bytes → Result AuthError Bytes
decode_hex env input = do
  digits ← ok_or (strip_prefix (codes "0x") input) invalid_chain_evidence
  ok_or (env.hex_decode digits) invalid_chain_evidence

unfoldable pub zeros : ℕ → Bytes
zeros zero = []
zeros (suc n) = 0 ∷ zeros n

-- `u64::to_be_bytes`: the last byte first, before those that are written.
unfoldable pub be_bytes : ℕ → ℕ → Bytes → Bytes
be_bytes zero value written = written
be_bytes (suc places) value written = be_bytes places (value / 256) (value % 256 ∷ written)

-- `u64::from_be_bytes`
unfoldable pub from_be_bytes : ℕ → Bytes → ℕ
from_be_bytes value [] = value
from_be_bytes value (b ∷ s) = from_be_bytes (value * 256 + b) s

unfoldable pub word_u64 : Bytes → Result AuthError ℕ
unfolding from_be_bytes
word_u64 word = do
  fail_if (not (length word == 32) || not (all (λ b. b == 0) (take 24 word))) invalid_chain_evidence
  ok (from_be_bytes 0 (drop 24 word))

unfoldable pub append_word : Bytes → ℕ → Bytes
unfolding zeros be_bytes
append_word output value = output ++ (zeros 24 ++ be_bytes 8 value [])

unfoldable pub function_selector : Env → Bytes → Bytes
function_selector env signature = take 4 (env.keccak256 signature)

unfoldable pub id_of_calldata : Env → Bytes → Bytes
unfolding function_selector zeros
id_of_calldata env address = function_selector env (codes "idOf(address)") ++ (zeros 12 ++ address)

unfoldable pub custody_of_calldata : Env → ℕ → Bytes
unfolding function_selector append_word
custody_of_calldata env fid = append_word (function_selector env (codes "custodyOf(uint256)")) fid

unfoldable pub auth_key_calldata : Env → ℕ → Bytes → Bytes
unfolding function_selector append_word zeros
auth_key_calldata env fid address =
    let selector = function_selector env (codes "keyDataOf(uint256,bytes)") in
    append_word (append_word (append_word selector fid) 64) 32 ++ (zeros 12 ++ address)

unfoldable pub erc1271_calldata : Env → Bytes → Bytes → Bytes
unfolding function_selector append_word zeros
erc1271_calldata env digest signature =
    let selector = function_selector env (codes "isValidSignature(bytes32,bytes)") in
    append_word (append_word (selector ++ digest) 64) (length signature)
    ++ (signature ++ zeros ((32 - length signature % 32) % 32))
