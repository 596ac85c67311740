-- ===== src/Credentials/Tokens.antt =====
-- The tokens of crates/psky-credentials/src/lib.rs: what a session's tokens claim, how they are signed
-- and how they are checked. A random identifier is an argument, 64 hexadecimal digits in the program.
-- Times are seconds that are taken to stay below the bound of an `i64`.
pub mod Signing
use psky.Prelude.{
  ℕ, ◌+◌, ◌*◌, ◌-◌, min, Bool, true, false, not, ◌||◌, Option, none, some, Bytes, bytes_ord, ◌=?◌,
  Result, ok, err, ◌>>=◌, ◌>>◌, fail_if, ok_or, List, [], ◌∷◌, ◌++◌, leb, ltb, ◌==◌, length, all,
}
use psky.Prelude.Text.{codes, split, is_ascii_hexdigit}
use psky.Json.{Value, Values, Fields, field}
use psky.Credentials.Types.{
  Error, invalid_token, expired_token, persistence, Account, SessionInfo, Session, Claims, Header,
  Env,
}

abbrev pub access_seconds : ℕ
access_seconds = 30 * 60

abbrev pub refresh_seconds : ℕ
refresh_seconds = 7 * 24 * 60 * 60

pub data TokenKind : Type 0 where
  access refresh : TokenKind

unfoldable pub typ : TokenKind → Bytes
typ access = codes "at+jwt"
typ refresh = codes "refresh+jwt"

unfoldable pub scope : TokenKind → Bytes
scope access = codes "com.atproto.appPass"
scope refresh = codes "com.atproto.refresh"

unfoldable pub lifetime : TokenKind → ℕ
lifetime access = access_seconds
lifetime refresh = refresh_seconds

-- An array of one value.
abbrev one : Value → Value
one v = Value.array (Values.cons v Values.nil)

unfoldable pub did_document : Account → Value
did_document account =
    let did = account.identity.did in
    Value.object (
      field (codes "@context")
        (Value.array (
          Values.cons (Value.string (codes "https://www.w3.org/ns/did/v1")) (
            Values.cons (Value.string (codes "https://w3id.org/security/multikey/v1")) Values.nil)))
        (field (codes "id") (Value.string did) (
          field (codes "alsoKnownAs")
            (one (Value.string (codes "at://" ++ account.identity.handle)))
            (field (codes "verificationMethod")
              (one (
                Value.object (
                  field (codes "id") (Value.string (did ++ codes "#atproto")) (
                    field (codes "type") (Value.string (codes "Multikey")) (
                      field (codes "controller") (Value.string did) (
                        field (codes "publicKeyMultibase")
                          (Value.string account.public_key_multibase) Fields.end))))))
              (field (codes "service")
                (one (
                  Value.object (
                    field (codes "id") (Value.string (did ++ codes "#atproto_pds")) (
                      field (codes "type") (Value.string (codes "AtprotoPersonalDataServer")) (
                        field (codes "serviceEndpoint") (Value.string account.identity.service_url)
                          Fields.end)))))
                Fields.end)))))

unfoldable pub session_info : Account → SessionInfo
session_info account = record {
  handle = account.identity.handle;
  did = account.identity.did;
  did_doc = did_document account;
  email_confirmed = false;
  email_auth_factor = false;
  active = account.enabled;
}

-- The three parts of a token; more or fewer are none.
unfoldable pub three_parts : List Bytes → Option (Bytes × Bytes × Bytes)
three_parts (a ∷ b ∷ c ∷ []) = some (a, b, c)
three_parts _ = none

-- The conditions under which `verify_token` refuses the claims, before it looks at their end.
unfoldable pub claims_refused : Account → TokenKind → ℕ → Claims → Bool
unfolding scope lifetime
claims_refused account kind now claims =
    not (claims.sub =? account.identity.did)
    || not (claims.aud =? account.identity.service_did)
    || not (claims.scope =? scope kind)
    || ltb now claims.iat
    || leb claims.exp claims.iat
    || ltb (lifetime kind) (claims.exp - claims.iat)
    || not (length claims.sid == 64)
    || not (length claims.jti == 64)
    || not (all is_ascii_hexdigit claims.sid)
    || not (all is_ascii_hexdigit claims.jti)

-- The closure `claims` of `create_session`.
unfoldable pub claims_for : Account → Bytes → ℕ → TokenKind → Bytes → ℕ → Claims
unfolding scope
claims_for account sid now kind jti exp = record {
  sub = account.identity.did;
  aud = account.identity.service_did;
  scope = scope kind;
  iat = now;
  exp = exp;
  jti = jti;
  sid = sid;
}

module _ (env : Env) where
  open env use {
    base64_encode, base64_decode, hmac, encode_header, decode_header, encode_claims, decode_claims,
  }

  unfoldable pub sign_token : Bytes → Claims → TokenKind → Result Error Bytes
  unfolding typ
  sign_token key claims kind = do
    header ← ok_or (encode_header (record { alg = codes "HS256"; typ = typ kind })) persistence
    body ← ok_or (encode_claims claims) persistence
    let input = base64_encode header ++ b'.' ∷ base64_encode body
    mac ← ok_or (hmac key input) persistence
    ok (input ++ b'.' ∷ base64_encode mac)

  unfoldable pub verify_token : Bytes → Bytes → Account → TokenKind → ℕ → Result Error Claims
  unfolding typ
  verify_token key token account kind now = do
    fail_if (ltb 4096 (length token)) invalid_token
    (header, body, signature) ← ok_or (three_parts (split b'.' token)) invalid_token
    given ← ok_or (base64_decode signature) invalid_token
    mac ← ok_or (hmac key (header ++ b'.' ∷ body)) persistence
    fail_if (not (mac =? given)) invalid_token
    header_bytes ← ok_or (base64_decode header) invalid_token
    head ← ok_or (decode_header header_bytes) invalid_token
    fail_if (not (head.alg =? codes "HS256") || not (head.typ =? typ kind)) invalid_token
    body_bytes ← ok_or (base64_decode body) invalid_token
    claims ← ok_or (decode_claims body_bytes) invalid_token
    fail_if (claims_refused account kind now claims) invalid_token
    fail_if (leb claims.exp now) expired_token
    ok claims

  -- `access_jti` is the random identifier that the function draws.
  unfoldable pub create_session :
      Bytes → Account → Bytes → Bytes → Bytes → ℕ → ℕ → Result Error Session
  unfolding claims_for
  create_session key account sid refresh_jti access_jti now refresh_exp = do
    access_jwt ←
        sign_token key
          (claims_for account sid now access access_jti (min (now + access_seconds) refresh_exp))
          access
    refresh_jwt ←
        sign_token key (claims_for account sid now refresh refresh_jti refresh_exp) refresh
    ok (record { access_jwt = access_jwt; refresh_jwt = refresh_jwt; info = session_info account })
