-- ===== src/Farcaster/Client/Sound.antt =====
-- What stands behind an identity that was verified.
use psky.Prelude.{
  ℕ, ◌-◌, ◌^◌, ◌≡◌, refl, ap, ◌∙◌, inl, inr, true, false, Bool-cases, or_false, and_true, not-false,
  not, ◌&&◌, ◌||◌, Option, none, Bytes, bytes_ord, ◌=?◌, =?_iff, ok, on_ok, on_pass, passed,
  ok-injective, map_or, [], ◌∷◌, ◌++◌, ltb, ◌==◌, ==_iff, length, take, drop,
}
use mathlib.Core.Path.{subst}
use psky.Prelude.Text.{codes, starts_with}
use psky.Json.{Value, Values, Fields}
use psky.Farcaster.Types.{
  Challenge, SignedProof, ParsedProof, VerifiedIdentity, ProofKind, custody, auth_address,
  WalletKind, eoa, erc1271, AuthClient, Env,
}
use psky.Farcaster.Message.{recovery_valid, parse, verify_eoa}
use psky.Farcaster.Message.Bound.{Bound, Timely, parse_sound}
use psky.Farcaster.Words.{
  decode_hex, word_u64, id_of_calldata, custody_of_calldata, auth_key_calldata, erc1271_calldata,
}
use psky.Farcaster.Transport.{text, rpc, eth_call, text_of}
use psky.Farcaster.Client.Finalized.{Finalized, finalized_block-Finalized}
use psky.Farcaster.Client.{
  id_registry, key_registry, finalized_block, is_behind, block_selector, address_text, all_zero,
  is_magic, check_contract, check_wallet, check_custody, check_owner, check_permission,
  verify_authority, verify,
}

module _ (env : Env) (client : AuthClient) (parsed : ParsedProof) where
  -- The signature is that of the address: by its key, or by the word of its contract.
  abbrev pub Signed : Value → WalletKind → Type 0
  Signed selector eoa = env.verify_eip191 parsed.message parsed.signature ≡ true
  Signed selector erc1271 =
      (answer : Bytes) × (eth_call env client (address_text env parsed)
          (erc1271_calldata env parsed.digest parsed.signature) selector
        ≡ ok answer)
      × (is_magic answer ≡ true)

  -- The custody of the account, by the registry: an address that is not zero.
  abbrev pub IsCustody : Value → Bytes → Type 0
  IsCustody selector address =
      (word : Bytes) × (eth_call env client id_registry (custody_of_calldata env parsed.fid)
          selector
        ≡ ok word)
      × (length word ≡ 32)
      × (all_zero (drop 12 word) ≡ false)
      × (address ≡ codes "0x" ++ env.hex_encode (drop 12 word))

  -- The signing address may act for the account, by the registries: as an active key for signing in, or as
  -- its custody.
  abbrev pub Permitted : Value → Bytes → ProofKind → Type 0
  Permitted selector address auth_address =
      (words : Bytes) × (eth_call env client key_registry
          (auth_key_calldata env parsed.fid parsed.message.address) selector
        ≡ ok words)
      × (word_u64 (take 32 words) ≡ ok 1)
      × (word_u64 (drop 32 words) ≡ ok 2)
  Permitted selector address custody =
      (word : Bytes) × (eth_call env client id_registry (id_of_calldata env parsed.message.address)
          selector
        ≡ ok word)
      × (word_u64 word ≡ ok parsed.fid)
      × (address ≡ address_text env parsed)

  check_wallet-Signed :
      (selector : Value) (kind : WalletKind)
      → check_wallet env client parsed selector ≡ ok kind
      → Signed selector kind
  unfolding check_wallet check_contract verify_eoa
  check_wallet-Signed selector kind h =
      on_ok
        (rpc env client (codes "eth_getCode") (
          Value.array
            (Values.cons (text (address_text env parsed)) (Values.cons selector Values.nil))))
        _ h
        λ value _ h. on_ok (text_of value) _ h λ hex _ h. on_ok (decode_hex env hex) _ h λ code _ h.
          elim (Bool-cases (length code == 0)) [
            | inl e ↦ on_ok (verify_eoa env parsed) _ (rw e at h) λ u checked h.
                on_pass (not (length parsed.signature == 65)) _ _ checked λ _ checked.
                  on_pass (not (recovery_valid parsed.signature)) _ _ checked λ _ checked.
                    subst (Signed selector) (ok-injective h) (not-false _ (passed _ _ checked))
            | inr e ↦ on_pass (starts_with (0xef ∷ 0x01 ∷ 0x00 ∷ []) code) _ _ (rw e at h) λ _ h.
                on_ok
                  (eth_call env client (address_text env parsed)
                    (erc1271_calldata env parsed.digest parsed.signature) selector)
                  _ h
                  λ answer answered h. on_pass (not (is_magic answer)) _ _ h λ magic h.
                    subst (Signed selector) (ok-injective h) (answer, answered, not-false _ magic)
          ]

  check_custody-IsCustody :
      (expected : Option VerifiedIdentity) (selector : Value) (address : Bytes)
      → check_custody env client parsed expected selector ≡ ok address
      → IsCustody selector address
        × (map_or false (λ (e : VerifiedIdentity). not (e.custody_address =? address)) expected
            ≡ false)
  unfolding check_custody
  check_custody-IsCustody expected selector address h =
      on_ok (eth_call env client id_registry (custody_of_calldata env parsed.fid) selector) _ h
        λ word answered h.
          on_pass (not (length word == 32) || not (all_zero (take 12 word))) _ _ h λ formed h.
            on_pass (all_zero (drop 12 word)) _ _ h λ nonzero h.
              let shown = codes "0x" ++ env.hex_encode (drop 12 word) in
              on_pass
                (map_or false (λ (e : VerifiedIdentity). not (e.custody_address =? shown)) expected)
                _ _ h
                λ same h.
                  let sized =
                    (or_false (not (length word == 32)) (not (all_zero (take 12 word))) formed).0 in
                  subst
                    (λ a.
                      IsCustody selector a
                      × (map_or false (λ (e : VerifiedIdentity). not (e.custody_address =? a))
                            expected
                          ≡ false))
                    (ok-injective h)
                    (
                      (
                        word,
                        answered,
                        (==_iff (length word) 32).0 (not-false _ sized),
                        nonzero,
                        refl,
                      ),
                      same,
                    )

  check_permission-Permitted :
      (address : Bytes) (selector : Value) (kind : ProofKind)
      → check_permission env client parsed address selector ≡ ok kind
      → Permitted selector address kind
  unfolding check_permission check_owner
  check_permission-Permitted address selector kind h =
      on_ok
        (eth_call env client key_registry (auth_key_calldata env parsed.fid parsed.message.address)
          selector)
        _ h
        λ words answered h. on_pass (not (length words == 64)) _ _ h λ _ h.
          on_ok (word_u64 (take 32 words)) _ h λ state is_state h.
            on_ok (word_u64 (drop 32 words)) _ h λ type is_type h.
              on_pass (ltb 2 state || ltb (2 ^ 32 - 1) type) _ _ h λ _ h.
                elim (Bool-cases (state == 1 && type == 2)) [
                  | inl e ↦
                      let (active, for_auth) = and_true (state == 1) (type == 2) e in
                      subst (Permitted selector address) (ok-injective (rw e at h)) (
                        words,
                        answered,
                        is_state ∙ ap (λ n. ok n) ((==_iff state 1).0 active),
                        is_type ∙ ap (λ n. ok n) ((==_iff type 2).0 for_auth),
                      )
                  | inr e ↦
                      on_ok
                        (eth_call env client id_registry (id_of_calldata env parsed.message.address)
                          selector)
                        _ (rw e at h)
                        λ word found h. on_pass (not (length word == 32)) _ _ h λ _ h.
                          on_ok (word_u64 word) _ h λ owned is_owned h.
                            on_pass
                              (not (owned == parsed.fid)
                                || not (address =? address_text env parsed))
                              _ _ h
                              λ same h.
                                let (same_fid, same_address) =
                                  or_false (not (owned == parsed.fid)) _ same in
                                subst (Permitted selector address) (ok-injective h) (
                                  word,
                                  found,
                                  is_owned
                                      ∙ ap (λ n. ok n)
                                          ((==_iff owned parsed.fid).0 (not-false _ same_fid)),
                                  (=?_iff address (address_text env parsed)).0
                                      (not-false _ same_address),
                                )
                ]

  -- A block by its hash, on the canonical chain.
  abbrev pub selector_of : Bytes → Value
  selector_of block_hash = Value.object (
      Fields.field (codes "blockHash") (Value.string block_hash)
        (Fields.field (codes "requireCanonical") (Value.bool true) Fields.end))

  -- The evidence of an identity, all of it read at one finalized block.
  pub record Verified (now : ℕ) (identity : VerifiedIdentity) : Type 0 where
    pub same_fid : identity.fid ≡ parsed.fid
    pub same_address : identity.address ≡ address_text env parsed
    pub at_block : finalized_block env client now ≡ ok (identity.checked_block, identity.block_hash)
    pub finalized : Finalized env client now identity.checked_block identity.block_hash
    pub signed : Signed (selector_of identity.block_hash) identity.wallet_kind
    pub has_custody : IsCustody (selector_of identity.block_hash) identity.custody_address
    pub permitted :
        Permitted (selector_of identity.block_hash) identity.custody_address identity.proof_kind
    pub checked_now : identity.checked_at ≡ now

  pub verify_authority-Verified :
      (now : ℕ) (expected : Option VerifiedIdentity) (identity : VerifiedIdentity)
      → verify_authority env client parsed now expected ≡ ok identity
      → Verified now identity
        × (is_behind expected identity.checked_block identity.block_hash ≡ false)
        × (map_or false
              (λ (e : VerifiedIdentity). not (e.custody_address =? identity.custody_address))
              expected
            ≡ false)
  unfolding verify_authority block_selector
  verify_authority-Verified now expected identity h =
      on_ok (finalized_block env client now) _ h λ block found h.
        on_pass (is_behind expected block.0 block.1) _ _ h λ ahead h.
          let selector = block_selector block.1 in
          on_ok (check_wallet env client parsed selector) _ h λ wallet wallet_checked h.
            on_ok (check_custody env client parsed expected selector) _ h λ owner owner_checked h.
              on_ok (check_permission env client parsed owner selector) _ h
                λ kind permission_checked h.
                  let (is_custody, as_expected) =
                    check_custody-IsCustody expected selector owner owner_checked in
                  subst
                    (λ (i : VerifiedIdentity).
                      Verified now i
                      × (is_behind expected i.checked_block i.block_hash ≡ false)
                      × (map_or false
                            (λ (e : VerifiedIdentity). not (e.custody_address =? i.custody_address))
                            expected
                          ≡ false))
                    (ok-injective h)
                    (
                      record {
                        same_fid = refl;
                        same_address = refl;
                        at_block = found;
                        finalized = finalized_block-Finalized env client now block.0 block.1 found;
                        signed = check_wallet-Signed selector wallet wallet_checked;
                        has_custody = is_custody;
                        permitted =
                            check_permission-Permitted owner selector kind permission_checked;
                        checked_now = refl;
                      },
                      ahead,
                      as_expected,
                    )

-- An identity is verified only from a proof that is bound to this application and answers the challenge,
-- and only with evidence of one block, which Optimism, by its chain's number, gives as its finalized one and
-- which is at most an hour old: the signature is that of the address, the custody is the registry's and not
-- zero, and the address is an active key of the account or its custody.
pub verify-Verified :
    (env : Env) (client : AuthClient) (proof : SignedProof) (challenge : Challenge) (now : ℕ)
    (identity : VerifiedIdentity)
    → verify env client proof challenge now ≡ ok identity
    → (parsed : ParsedProof) × Bound env proof client.config.domain client.config.uri parsed
      × Timely parsed.message challenge now
      × Verified env client parsed now identity
unfolding verify
verify-Verified env client proof challenge now identity h =
    on_ok (parse env proof challenge client.config.domain client.config.uri now) _ h
      λ parsed read h.
        let (bound, timely) =
          parse_sound env proof challenge client.config.domain client.config.uri now parsed read in
        (parsed, bound, timely, (verify_authority-Verified env client parsed now none identity h).0)
