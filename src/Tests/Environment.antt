-- ===== src/Tests/Environment.antt =====
-- A concrete environment for the runs of the credentials: a shifted alphabet for base64, length-prefixed
-- headers, claims and accounts, and the last 32 bytes of a text as its hash.
use psky.Prelude.{
  ℕ, ◌+◌, ◌-◌, ◌≡◌, refl, Bool, false, Option, none, some, Bytes, Result, ok, ◌>>=◌, to_option, [],
  ◌∷◌, ◌++◌, drop, length, if◌then◌else◌, ◌==◌, arith, ap,
}
use psky.Prelude.Text.{codes, has_byte}
use psky.Credentials.Types.{Account, Claims, Header, Env}
use psky.Credentials.Tokens.Signing.{Laws}
use psky.Tests.Sample.{sample_with, sized, read_sized, read_number, read_sized-append, sized_alone}

unfoldable pub shift : Bytes → Bytes
shift [] = []
shift (b ∷ s) = (b + 47) ∷ shift s

unfoldable pub shift_back : Bytes → Bytes
shift_back [] = []
shift_back (b ∷ s) = (b - 47) ∷ shift_back s

shift_back-shift : (s : Bytes) → shift_back (shift s) ≡ s
unfolding shift shift_back
shift_back-shift [] = refl
shift_back-shift (b ∷ s) = ground (arith, shift_back-shift s)

shift-dotless : (s : Bytes) → has_byte b'.' (shift s) ≡ false
unfolding shift
shift-dotless [] = refl
shift-dotless (b ∷ s) = ground (arith, shift-dotless s)

abbrev pub header_bytes : Header → Bytes
header_bytes h = sized h.alg ++ sized h.typ

unfoldable pub read_header : Bytes → Result Bytes Header
unfolding read_sized
read_header s = do
  (alg, s) ← read_sized s
  (typ, s) ← read_sized s
  ok (record { alg = alg; typ = typ })

read_header-header_bytes : (h : Header) → read_header (header_bytes h) ≡ ok h
unfolding read_header
read_header-header_bytes h = rw (read_sized-append h.alg (sized h.typ), sized_alone h.typ) refl

abbrev pub claims_bytes : Claims → Bytes
claims_bytes c =
    sized c.sub
    ++ (sized c.aud ++ (sized c.scope ++ (c.iat ∷ c.exp ∷ (sized c.jti ++ sized c.sid))))

unfoldable pub read_claims : Bytes → Result Bytes Claims
unfolding read_sized read_number
read_claims s = do
  (sub, s) ← read_sized s
  (aud, s) ← read_sized s
  (scope, s) ← read_sized s
  (iat, s) ← read_number s
  (exp, s) ← read_number s
  (jti, s) ← read_sized s
  (sid, s) ← read_sized s
  ok (record { sub = sub; aud = aud; scope = scope; iat = iat; exp = exp; jti = jti; sid = sid })

read_claims-claims_bytes : (c : Claims) → read_claims (claims_bytes c) ≡ ok c
unfolding read_claims
read_claims-claims_bytes c =
    let with_jti : Bytes = sized c.jti ++ sized c.sid in
    let with_times : Bytes = c.iat ∷ c.exp ∷ with_jti in
    let with_scope = sized c.scope ++ with_times in
    rw
      (
        read_sized-append c.sub (sized c.aud ++ with_scope),
        read_sized-append c.aud with_scope,
        read_sized-append c.scope with_times,
        read_sized-append c.jti (sized c.sid),
        sized_alone c.sid,
      )
      refl

-- Only the parts of an account that the runs look at.
abbrev pub account_bytes : Account → Bytes
account_bytes a = a.fid ∷ (if a.enabled then 1 else 0) ∷ sized a.identity.did

abbrev pub account_of : ℕ → Bool → Bytes → Account
account_of fid enabled did = record {
  fid = fid;
  authority = codes "key";
  identity = record {
    handle = drop 8 did;
    did = did;
    service_url = codes "https://pds.example";
    service_did = codes "did:web:pds.example";
  };
  enabled = enabled;
  created_at = 0;
  public_key_multibase = codes "z6";
  repo_revision = codes "2222222222222";
  repo_cid = codes "cid";
}

unfoldable pub read_account : Bytes → Result Bytes Account
unfolding read_sized read_number
read_account s = do
  (fid, s) ← read_number s
  (enabled, s) ← read_number s
  (did, s) ← read_sized s
  ok (account_of fid (enabled == 1) did)

abbrev pub environment : Env
environment = record {
  repo = sample_with (λ s. drop (length s - 32) s);
  parse_url = λ s. none;
  base64_encode = shift;
  base64_decode = λ s. some (shift_back s);
  hmac = λ key s. some (key ++ s);
  encode_header = λ h. some (header_bytes h);
  decode_header = λ s. to_option (read_header s);
  encode_claims = λ c. some (claims_bytes c);
  decode_claims = λ s. to_option (read_claims s);
  encode_account = λ a. some (account_bytes a);
  decode_account = λ s. to_option (read_account s);
  base58_encode = λ s. s;
}

some-injective : {A : Type 0} {a b : A} → ◌≡◌ {A = Option A} (some a) (some b) → a ≡ b
some-injective h = cc h

pub environment_laws : Laws environment
environment_laws = record {
  decodes = λ s. ap some (shift_back-shift s);
  dotless = shift-dotless;
  reads_header = λ h s e. rw (← some-injective e) (ap to_option (read_header-header_bytes h));
  reads_claims = λ c s e. rw (← some-injective e) (ap to_option (read_claims-claims_bytes c));
}
