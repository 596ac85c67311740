-- ===== src/Credentials/Tokens/Signing.antt =====
-- A token that is signed is accepted under the same key.
use psky.Prelude.{
  ℕ, ◌≤◌, ◌<◌, ◌≡◌, refl, sym, false, some, Bytes, bytes_ord, =?_refl, ok, on_ok, ok-injective,
  ok_or, arith, [], ◌∷◌, ◌++◌, leb, ltb, length,
}
use mathlib.Core.List.{append_assoc}
use psky.Prelude.Text.{codes, split, has_byte}
use psky.Credentials.Types.{persistence, Account, Claims, Header, Env}
use psky.Credentials.Tokens.{TokenKind, typ, sign_token, verify_token, three_parts, claims_refused}

split-alone : (c : ℕ) (a : Bytes) → has_byte c a ≡ false → split c a ≡ a ∷ []
unfolding split
split-alone c [] h = refl
split-alone c (b ∷ a) h = ground (arith, split-alone c a)

split-append :
    (c : ℕ) (a rest : Bytes) → has_byte c a ≡ false → split c (a ++ c ∷ rest) ≡ a ∷ split c rest
unfolding split
split-append c [] rest h = ground arith
split-append c (b ∷ a) rest h = ground (arith, split-append c a rest)

-- What the program relies on in the crates that it calls: the base64 of the tokens is decoded again and
-- has no dot, and headers and claims are read back from their JSON.
pub record Laws (env : Env) : Type 0 where
  pub decodes : (s : Bytes) → env.base64_decode (env.base64_encode s) ≡ some s
  pub dotless : (s : Bytes) → has_byte b'.' (env.base64_encode s) ≡ false
  pub reads_header :
      (h : Header) (s : Bytes) → env.encode_header h ≡ some s → env.decode_header s ≡ some h
  pub reads_claims :
      (c : Claims) (s : Bytes) → env.encode_claims c ≡ some s → env.decode_claims s ≡ some c

three_parts-split :
    (a b c : Bytes)
    → has_byte b'.' a ≡ false
    → has_byte b'.' b ≡ false
    → has_byte b'.' c ≡ false
    → three_parts (split b'.' ((a ++ b'.' ∷ b) ++ b'.' ∷ c)) ≡ some (a, b, c)
unfolding three_parts
three_parts-split a b c h k l =
    rw
      (
        append_assoc a (b'.' ∷ b) (b'.' ∷ c),
        split-append b'.' a (b ++ b'.' ∷ c) h,
        split-append b'.' b c k,
        split-alone b'.' c l,
      )
      refl

module _ (env : Env) (laws : Laws env) where
  -- If the environment keeps its laws: a token that was signed for claims that pass the checks,
  -- and that is not too long, is accepted under the same key before it ends, and gives back the
  -- claims.
  pub verify_token-sign_token :
      (key token : Bytes) (account : Account) (kind : TokenKind) (now : ℕ) (claims : Claims)
      → sign_token env key claims kind ≡ ok token
      → length token ≤ 4096
      → claims_refused account kind now claims ≡ false
      → now < claims.exp
      → verify_token env key token account kind now ≡ ok claims
  unfolding sign_token verify_token
  verify_token-sign_token key token account kind now claims h short good live =
      on_ok (ok_or (env.encode_header (record { alg = codes "HS256"; typ = typ kind })) persistence)
        _ h
        λ head e h1. on_ok (ok_or (env.encode_claims claims) persistence) _ h1 λ body e' h2.
          let input = env.base64_encode head ++ b'.' ∷ env.base64_encode body in
          on_ok (ok_or (env.hmac key input) persistence) _ h2 λ mac e'' h3.
            let parts =
              three_parts-split (env.base64_encode head) (env.base64_encode body)
                (env.base64_encode mac) (laws.dotless head) (laws.dotless body)
                (laws.dotless mac) in
            let written : token ≡ input ++ b'.' ∷ env.base64_encode mac = sym (ok-injective h3) in
            let fits : ltb 4096 (length token) ≡ false = ground arith in
            let ends : leb claims.exp now ≡ false = ground arith in
            rw
              (
                fits,
                written,
                parts,
                laws.decodes mac,
                e'',
                =?_refl mac,
                laws.decodes head,
                laws.reads_header (record { alg = codes "HS256"; typ = typ kind }) head
                    (ground (arith, e)),
                =?_refl (codes "HS256"),
                =?_refl (typ kind),
                laws.decodes body,
                laws.reads_claims claims body (ground (arith, e')),
                good,
                ends,
              )
              refl
