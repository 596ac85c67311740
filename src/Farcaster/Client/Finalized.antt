-- ===== src/Farcaster/Client/Finalized.antt =====
-- The block at which the client of crates/psky-farcaster-auth/src/client.rs reads its evidence.
use psky.Prelude.{
  ℕ, ◌+◌, ◌-◌, ◌≤◌, ◌<◌, ◌≡◌, refl, ap, ◌∙◌, false, or_false, not-false, not, ◌||◌, Option, none,
  some, Bytes, bytes_ord, =?_iff, ok, ok_or, and_then, on_ok, on_pass, ok-injective, arith, ltb,
  ◌==◌, ==_iff, length, map,
}
use mathlib.Core.Path.{subst}
use psky.Prelude.Text.{codes}
use psky.Json.{Value, Values, get, as_str}
use psky.Farcaster.Types.{invalid_chain_evidence, VerifiedIdentity, AuthClient, Env}
use psky.Farcaster.Message.{later_by}
use psky.Farcaster.Words.{quantity, decode_hex}
use psky.Farcaster.Transport.{rpc, text_of, text_field}
use psky.Farcaster.Client.{
  finalized_block, is_behind, eq_ignore_ascii_case, to_lowercase, max_finalized_age_seconds,
}

-- The number that stands under a name, written in hexadecimal.
abbrev pub HasNumber : Value → Bytes → ℕ → Type 0
HasNumber value key number =
    (member : Value) × (written : Bytes) × (get key value ≡ some member)
    × (as_str member ≡ some written)
    × (quantity written ≡ ok number)

-- Optimism answers with this block as its finalized one: it is not the first, its hash has 32 bytes, and it
-- is at most an hour old and at most a minute ahead of the clock.
pub record Finalized (env : Env) (client : AuthClient) (now number : ℕ) (block_hash : Bytes)
    : Type 0 where
  pub chain : Value
  pub chain_text : Bytes
  pub is_chain : rpc env client (codes "eth_chainId") (Value.array Values.nil) ≡ ok chain
  pub is_chain_text : as_str chain ≡ some chain_text
  pub on_optimism : quantity chain_text ≡ ok 10
  pub block : Value
  pub is_block :
      rpc env client (codes "eth_getBlockByNumber") (
        Value.array (
          Values.cons
            (Value.string (codes "finalized"))
            (Values.cons (Value.bool false) Values.nil)))
      ≡ ok block
  pub has_number : HasNumber block (codes "number") number
  pub positive : 0 < number
  pub hash_member : Value
  pub has_hash :
      (get (codes "hash") block ≡ some hash_member) × (as_str hash_member ≡ some block_hash)
  pub hash_bytes : Bytes
  pub is_hash : (decode_hex env block_hash ≡ ok hash_bytes) × (length hash_bytes ≡ 32)
  pub time : ℕ
  pub has_time : HasNumber block (codes "timestamp") time
  pub timely : (time ≤ now + 60) × (now ≤ time + 3600)

-- The evidence before is of no later block, and of the same height only under the same hash but for case.
abbrev pub NotBehind : Option VerifiedIdentity → ℕ → Bytes → Type 0
NotBehind none number block_hash = Unit {0}
NotBehind (some previous) number block_hash =
    (previous.checked_block ≤ number)
    × (number ≡ previous.checked_block
        → map to_lowercase block_hash ≡ map to_lowercase previous.block_hash)

pub is_behind-NotBehind :
    (expected : Option VerifiedIdentity) (number : ℕ) (block_hash : Bytes)
    → is_behind expected number block_hash ≡ false
    → NotBehind expected number block_hash
unfolding is_behind eq_ignore_ascii_case
is_behind-NotBehind none number block_hash h = tt
is_behind-NotBehind (some previous) number block_hash h =
    let (later, same) = or_false (ltb number previous.checked_block) _ h in
    (
      ground (arith, later),
      λ e.
          (=?_iff (map to_lowercase block_hash) (map to_lowercase previous.block_hash)).0
            (ground (arith, same, e)),
    )

-- A text that was read stood there.
text_of_sound :
    (value : Value) {written : Bytes} → text_of value ≡ ok written → as_str value ≡ some written
unfolding text_of
text_of_sound value h = read (as_str value) h
  where
    read :
        (found : Option Bytes) {written : Bytes}
        → ok_or found invalid_chain_evidence ≡ ok written
        → found ≡ some written
    read none h = absurd (cc)
    read (some s) h = ap (λ t. some t) (ok-injective h)

text_field_sound :
    (value : Value) (key : Bytes) {written : Bytes}
    → text_field value key ≡ ok written
    → (member : Value) × (get key value ≡ some member) × (as_str member ≡ some written)
unfolding text_field text_of
text_field_sound value key h = read (get key value) h
  where
    read :
        (found : Option Value) {written : Bytes}
        → ok_or (and_then found as_str) invalid_chain_evidence ≡ ok written
        → (member : Value) × (found ≡ some member) × (as_str member ≡ some written)
    read none h = absurd (cc)
    read (some member) h = (member, refl, text_of_sound member h)

pub finalized_block-Finalized :
    (env : Env) (client : AuthClient) (now number : ℕ) (block_hash : Bytes)
    → finalized_block env client now ≡ ok (number, block_hash)
    → Finalized env client now number block_hash
unfolding finalized_block later_by
finalized_block-Finalized env client now number block_hash h =
    on_ok (rpc env client (codes "eth_chainId") (Value.array Values.nil)) _ h λ chain is_chain h.
      on_ok (text_of chain) _ h λ chain_text is_chain_text h.
        on_ok (quantity chain_text) _ h λ id is_id h. on_pass (not (id == 10)) _ _ h λ optimism h.
          on_ok
            (rpc env client (codes "eth_getBlockByNumber") (
              Value.array (
                Values.cons (Value.string (codes "finalized"))
                  (Values.cons (Value.bool false) Values.nil))))
            _ h
            λ block is_block h.
              on_ok (text_field block (codes "number")) _ h λ number_text has_number h.
                on_ok (quantity number_text) _ h λ n is_number h.
                  on_ok (text_field block (codes "hash")) _ h λ hash has_hash h.
                    on_ok (decode_hex env hash) _ h λ hash_bytes is_hash h.
                      on_pass (not (length hash_bytes == 32)) _ _ h λ sized h.
                        on_ok (text_field block (codes "timestamp")) _ h λ time_text has_time h.
                          on_ok (quantity time_text) _ h λ time is_time h.
                            on_pass
                              (n == 0
                                || ltb (later_by 60 now) time
                                || ltb max_finalized_age_seconds (now - time))
                              _ _ h
                              λ timely h.
                                let (n_member, n_get, n_text) =
                                  text_field_sound block (codes "number") has_number in
                                let (h_member, h_get, h_text) =
                                  text_field_sound block (codes "hash") has_hash in
                                let (t_member, t_get, t_text) =
                                  text_field_sound block (codes "timestamp") has_time in
                                subst (λ (b : ℕ × Bytes). Finalized env client now b.0 b.1)
                                  (ok-injective h)
                                  (record {
                                    chain = chain;
                                    chain_text = chain_text;
                                    is_chain = is_chain;
                                    is_chain_text = text_of_sound chain is_chain_text;
                                    on_optimism =
                                        is_id
                                        ∙ ap (λ i. ok i) ((==_iff id 10).0 (not-false _ optimism));
                                    block = block;
                                    is_block = is_block;
                                    has_number = (n_member, number_text, n_get, n_text, is_number);
                                    positive = ground (arith, timely);
                                    hash_member = h_member;
                                    has_hash = (h_get, h_text);
                                    hash_bytes = hash_bytes;
                                    is_hash = (
                                      is_hash,
                                      (==_iff (length hash_bytes) 32).0 (not-false _ sized),
                                    );
                                    time = time;
                                    has_time = (t_member, time_text, t_get, t_text, is_time);
                                    timely = ground (arith, timely);
                                  })
