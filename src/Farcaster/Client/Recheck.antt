-- ===== src/Farcaster/Client/Recheck.antt =====
-- What a recheck keeps.
use psky.Prelude.{
  ℕ, ◌≤◌, ◌≡◌, sym, ◌∙◌, true, false, or_false, not-false, not, ◌&&◌, ◌||◌, some, bytes_ord, ◌=?◌,
  =?_iff, ok, on_ok, on_pass, arith, ltb, ◌==◌, ==_iff, length,
}
use psky.Farcaster.Types.{SignedProof, ParsedProof, VerifiedIdentity, AuthClient, Env}
use psky.Farcaster.Message.{parse_authority}
use psky.Farcaster.Message.Bound.{Bound, parse_authority-Bound}
use psky.Farcaster.Words.{decode_hex}
use psky.Farcaster.Client.{eq_ignore_ascii_case, is_behind, address_text, recheck_identity}
use psky.Farcaster.Client.Sound.{Verified, verify_authority-Verified}

-- The evidence does not go back: a later block, or the same one under the same hash but for its letters' case.
abbrev pub Advances : VerifiedIdentity → VerifiedIdentity → Type 0
Advances before after =
    (before.checked_block ≤ after.checked_block)
    × (after.checked_block ≡ before.checked_block
        → eq_ignore_ascii_case after.block_hash before.block_hash ≡ true)

Advances-of_is_behind :
    (before after : VerifiedIdentity)
    → is_behind (some before) after.checked_block after.block_hash ≡ false
    → Advances before after
unfolding is_behind
Advances-of_is_behind before after h =
    let (later, same) =
      or_false (ltb after.checked_block before.checked_block)
        (after.checked_block == before.checked_block
          && not (eq_ignore_ascii_case after.block_hash before.block_hash))
        h in
    (ground (arith, later), λ e. ground (arith, same, e))

-- A recheck that succeeds is of a proof for this application, keeps the account, the address and the
-- custody, moves the evidence to a block that is no earlier, and one of the same height only under the
-- same hash, and verifies everything there anew.
pub recheck_identity_sound :
    (env : Env) (client : AuthClient) (before : VerifiedIdentity) (proof : SignedProof) (now : ℕ)
    (after : VerifiedIdentity)
    → recheck_identity env client before proof now ≡ ok after
    → (parsed : ParsedProof) × Bound env proof client.config.domain client.config.uri parsed
      × Verified env client parsed now after
      × (after.fid ≡ before.fid)
      × (after.address ≡ before.address)
      × (after.custody_address ≡ before.custody_address)
      × (before.checked_at ≤ after.checked_at)
      × Advances before after
unfolding recheck_identity
recheck_identity_sound env client before proof now after h =
    on_ok (parse_authority env proof client.config.domain client.config.uri) _ h λ parsed read h.
      on_pass (not (parsed.fid == before.fid) || not (address_text env parsed =? before.address)) _
        _ h
        λ same h. on_ok (decode_hex env before.custody_address) _ h λ custody_bytes _ h.
          on_pass (not (length custody_bytes == 20)) _ _ h λ _ h.
            on_pass (ltb now before.checked_at || before.checked_block == 0) _ _ h λ ordered h.
              on_ok (decode_hex env before.block_hash) _ h λ hash_bytes _ h.
                on_pass (not (length hash_bytes == 32)) _ _ h λ _ h.
                  let (verified, ahead, custody) =
                    verify_authority-Verified env client parsed now (some before) after h in
                  let (same_fid, same_address) =
                    or_false (not (parsed.fid == before.fid))
                      (not (address_text env parsed =? before.address)) same in
                  (
                    parsed,
                    parse_authority-Bound env proof client.config.domain client.config.uri parsed
                        read,
                    verified,
                    verified.same_fid ∙ (==_iff parsed.fid before.fid).0 (not-false _ same_fid),
                    verified.same_address
                        ∙ (=?_iff (address_text env parsed) before.address).0
                            (not-false _ same_address),
                    sym (
                        (=?_iff before.custody_address after.custody_address).0
                          (not-false _ custody)),
                    ground (arith, ordered, verified.checked_now),
                    Advances-of_is_behind before after ahead,
                  )
