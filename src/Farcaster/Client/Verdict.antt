-- ===== src/Farcaster/Client/Verdict.antt =====
-- When a recheck may give a verdict on the account.
use psky.Prelude.{
  ℕ, ◌≡◌, refl, ap, inl, inr, ◌⊎◌, Bool, true, false, Bool-cases, Option, none, some, Bytes,
  bytes_ord, Result, Result-cases, ok, err, err-injective, ◌>>=◌, fail_if, ok_or, ◌++◌,
}
use mathlib.Core.Path.{subst}
use psky.Json.{Value}
use psky.Http.{Body, end, broken, chunk, Response, failed, answered}
use psky.Farcaster.Types.{
  AuthError, unavailable, invalid_chain_evidence, ParsedProof, VerifiedIdentity, AuthClient, Env,
}
use psky.Farcaster.Words.{quantity, decode_hex}
use psky.Farcaster.Transport.{read_chunks, read_answer, send, read_result, rpc, text_of, text_field}
use psky.Farcaster.Client.Finalized.{
  Finalized, NotBehind, finalized_block-Finalized, is_behind-NotBehind,
}
use psky.Farcaster.Client.{finalized_block, is_behind, verify_authority}

-- An error that says nothing about the account: the services could not be reached or gave no evidence.
abbrev pub IsOperational : AuthError → Type 0
IsOperational e = (e ≡ unavailable) ⊎ (e ≡ invalid_chain_evidence)

-- A step that fails only for such a reason.
abbrev Operational : {A : Type 0} → Result AuthError A → Type 0
Operational result = (e : AuthError) → result ≡ err e → IsOperational e

Operational-bind :
    {A B : Type 0} (first : Result AuthError A) (rest : A → Result AuthError B)
    → Operational first
    → ((a : A) → Operational (rest a))
    → Operational (first >>= rest)
Operational-bind (ok a) rest f r = r a
Operational-bind (err d) rest f r = λ e h. f e (ap (λ x. err x) (err-injective h))

Operational-ok : {A : Type 0} (a : A) → Operational (ok a)
Operational-ok a e h = absurd (cc)

Operational-fail_if : (b : Bool) (d : AuthError) → IsOperational d → Operational (fail_if b d)
Operational-fail_if true d o = λ e h. subst IsOperational (err-injective h) o
Operational-fail_if false d o = λ e h. absurd (cc)

Operational-ok_or :
    {A : Type 0} (o : Option A) (d : AuthError) → IsOperational d → Operational (ok_or o d)
Operational-ok_or none d o = λ e h. subst IsOperational (err-injective h) o
Operational-ok_or (some a) d o = λ e h. absurd (cc)

is_down : IsOperational unavailable
is_down = inl refl

is_evidence : IsOperational invalid_chain_evidence
is_evidence = inr refl

ruleset operational =
    (Operational-bind, Operational-ok, Operational-fail_if, Operational-ok_or, is_down, is_evidence)

Operational-err : {A : Type 0} (d : AuthError) → IsOperational d → Operational {A = A} (err d)
Operational-err d o = λ e h. subst IsOperational (err-injective h) o

-- So do the readings of the answers, and with them the reading of the finalized block.
Operational-read_chunks : (body : Body) (bytes : Bytes) → Operational (read_chunks body bytes)
unfolding read_chunks
Operational-read_chunks end bytes = search operational
Operational-read_chunks (broken is_timeout) bytes = Operational-err unavailable is_down
Operational-read_chunks (chunk more rest) bytes =
    search (operational, Operational-read_chunks rest (bytes ++ more))

Operational-read_answer : (response : Response) → Operational (read_answer response)
unfolding read_answer
Operational-read_answer (failed is_timeout) = Operational-err unavailable is_down
Operational-read_answer (answered status announced body) =
    search (operational, Operational-read_chunks)

Operational-read_result : (value : Value) → Operational (read_result value)
unfolding read_result
Operational-read_result value = search operational

Operational-rpc :
    (env : Env) (client : AuthClient) (method : Bytes) (params : Value)
    → Operational (rpc env client method params)
unfolding rpc send
Operational-rpc env client method params =
    search (operational, Operational-read_answer, Operational-read_result)

Operational-text_of : (value : Value) → Operational (text_of value)
unfolding text_of
Operational-text_of value = search operational

Operational-text_field : (value : Value) (key : Bytes) → Operational (text_field value key)
unfolding text_field
Operational-text_field value key = search operational

Operational-quantity : (input : Bytes) → Operational (quantity input)
unfolding quantity
Operational-quantity input = search operational

Operational-decode_hex : (env : Env) (input : Bytes) → Operational (decode_hex env input)
unfolding decode_hex
Operational-decode_hex env input = search operational

Operational-finalized_block :
    (env : Env) (client : AuthClient) (now : ℕ) → Operational (finalized_block env client now)
unfolding finalized_block
Operational-finalized_block env client now =
    search
      (
        operational, Operational-rpc, Operational-text_of, Operational-text_field,
        Operational-quantity, Operational-decode_hex,
      )
      depth 20 fits 4000

-- A check of an account that fails for any other reason than that the services could not be reached or
-- gave no evidence has read a block that Optimism, by its chain's number, gives as its finalized one, at
-- most an hour old and at most a minute ahead of the clock, and that is no earlier than the evidence
-- before, and of the same height only under the same hash but for the case of its letters.
pub verify_authority_verdict :
    (env : Env) (client : AuthClient) (parsed : ParsedProof) (now : ℕ)
    (expected : Option VerifiedIdentity) (e : AuthError)
    → verify_authority env client parsed now expected ≡ err e
    → ¬ IsOperational e
    → (number : ℕ) × (block_hash : Bytes) × Finalized env client now number block_hash
      × NotBehind expected number block_hash
unfolding verify_authority
verify_authority_verdict env client parsed now expected e h verdict =
    elim (Result-cases (finalized_block env client now)) [
      | inr (d, down) ↦ absurd (
          verdict (
            subst IsOperational (err-injective (rw down at h))
              (Operational-finalized_block env client now d down)))
      | inl ((number, block_hash), found) ↦
          elim (Bool-cases (is_behind expected number block_hash)) [
            | inl behind ↦ absurd (
                verdict (subst IsOperational (err-injective (rw (found, behind) at h)) is_evidence))
            | inr ahead ↦ (
              number,
              block_hash,
              finalized_block-Finalized env client now number block_hash found,
              is_behind-NotBehind expected number block_hash ahead,
            )
          ]
    ]
