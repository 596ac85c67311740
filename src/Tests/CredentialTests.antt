-- ===== src/Tests/CredentialTests.antt =====
-- Runs of the credentials: a login, a rotation, a logout and an invalidation.
use psky.Prelude.{
  ℕ, ◌+◌, ◌≤◌, ◌≡◌, ◌≢◌, refl, true, false, some, none, Bytes, bytes_ord, ok, [], ◌∷◌, ◌++◌, arith,
  length, ap, sym, ◌∙◌,
}
use psky.Prelude.Text.{codes, first_is}
use psky.Prelude.{◌==◌}
use psky.Credentials.Types.{Account, PasswordRow, SessionRow, Store, Session, Claims}
use psky.Credentials.Tokens.{
  TokenKind, access, refresh, claims_for, session_info, sign_token, verify_token, claims_refused,
  typ,
}
use psky.Credentials.Tokens.Signing.{verify_token-sign_token}
use psky.Credentials.Store.{invalidate_authority}
use psky.Credentials.Sessions.{
  with_rows, hash_prefix, authenticate, get_session, validate_refresh, refresh_session,
  delete_session, validate_password, revoke_password, has_password,
}
use psky.Credentials.Sessions.Validity.{IsValid}
use psky.Credentials.Sessions.Steps.{stop, next, authenticates, invalidates, Steps-IsValid}
use psky.Credentials.Sessions.Accepted.{token_claims}
use psky.Credentials.Sessions.Revocation.{
  validate_refresh-refresh_session, get_session-delete_session, get_session-revoke_password,
  get_session-invalidate_authority,
}
use psky.Credentials.Sessions.Renewal.{validate_refresh-renewed}
use psky.Credentials.Sessions.Login.{get_session-authenticate}
use psky.Credentials.Types.{SessionInfo}
use psky.Tests.Environment.{
  environment, environment_laws, shift, header_bytes, claims_bytes, account_bytes, account_of,
}

abbrev owner : Account
owner = account_of 5 true (codes "did:web:alice.example")

abbrev password : Bytes
password = codes "psky-0123456789012345678901234567890123456789012"

abbrev laptop : PasswordRow
laptop = record {
  name = codes "laptop";
  salt = codes "ssssssssssssssssssssssssssssssss";
  verifier = codes "12345678901234567890123456789012";
  created_at = 900;
}

abbrev sid : Bytes
sid = codes "aaaaaaaaaaaaaaaaaaaaaaaaaaaaaaaaaaaaaaaaaaaaaaaaaaaaaaaaaaaaaaaa"

abbrev first_jti : Bytes
first_jti = codes "bbbbbbbbbbbbbbbbbbbbbbbbbbbbbbbbbbbbbbbbbbbbbbbbbbbbbbbbbbbbbbbb"

abbrev second_jti : Bytes
second_jti = codes "cccccccccccccccccccccccccccccccccccccccccccccccccccccccccccccccc"

abbrev access_jti : Bytes
access_jti = codes "dddddddddddddddddddddddddddddddddddddddddddddddddddddddddddddddd"

abbrev bound : Store
bound = record {
  jwt_key = codes "kkkkkkkkkkkkkkkkkkkkkkkkkkkkkkkk";
  account = some (record { document = account_bytes owner; repo_key = 7 ∷ [] });
  passwords = laptop ∷ [];
  sessions = [];
  evidence = none;
}

bound-IsValid : IsValid bound
unfolding psky.Credentials.Sessions.has_password
bound-IsValid = record {
  few_passwords = omega arith;
  few_sessions = omega arith;
  named = (refl, tt);
  keyed = tt;
  linked = tt;
}

abbrev input : Bytes → Claims → Bytes
input kind claims =
    shift (header_bytes (record { alg = codes "HS256"; typ = kind }))
    ++ b'.' ∷ shift (claims_bytes claims)

abbrev token : Bytes → Claims → Bytes
token kind claims = input kind claims ++ b'.' ∷ shift (bound.jwt_key ++ input kind claims)

abbrev claims : Bytes → Bytes → ℕ → ℕ → Claims
claims scope jti iat exp = record {
  sub = codes "did:web:alice.example";
  aud = codes "did:web:pds.example";
  scope = scope;
  iat = iat;
  exp = exp;
  jti = jti;
  sid = sid;
}

abbrev first_refresh_claims : Claims
first_refresh_claims = claims (codes "com.atproto.refresh") first_jti 1000 605_800

abbrev first_access_claims : Claims
first_access_claims = claims (codes "com.atproto.appPass") access_jti 1000 2800

abbrev first_session : Session
first_session = record {
  access_jwt = token (codes "at+jwt") first_access_claims;
  refresh_jwt = token (codes "refresh+jwt") first_refresh_claims;
  info = session_info owner;
}

abbrev row : Bytes → SessionRow
row jti = record {
  id = sid;
  password_name = codes "laptop";
  refresh_jti = jti;
  refresh_exp = 605_800;
}

abbrev logged_in : Store
logged_in = with_rows bound bound.passwords (row first_jti ∷ [])

login :
    authenticate environment bound (codes "alice.example") password 1000 sid first_jti access_jti
    ≡ ok (logged_in, first_session)
unfolding authenticate psky.Credentials.Sessions.find_session psky.Credentials.Sessions.has_password
    psky.Credentials.Sessions.insert_session psky.Credentials.Sessions.match_password
    psky.Credentials.Sessions.verify_password psky.Credentials.Store.enabled_account
    psky.Credentials.Tokens.create_session psky.Prelude.Text.strip_prefix psky.Prelude.bytes_cmp
    psky.Tests.Environment.read_account sign_token
login = refl

abbrev second_session : Session
second_session = record {
  access_jwt = token (codes "at+jwt") (claims (codes "com.atproto.appPass") access_jti 1500 3300);
  refresh_jwt =
      token (codes "refresh+jwt") (claims (codes "com.atproto.refresh") second_jti 1500 605_800);
  info = session_info owner;
}

abbrev rotated : Store
rotated = with_rows bound bound.passwords (row second_jti ∷ [])

rotation :
    refresh_session environment logged_in first_session.refresh_jwt 1500 second_jti access_jti
    ≡ ok (rotated, second_session)
unfolding claims_refused psky.Credentials.Sessions.accept_refresh
    psky.Credentials.Sessions.find_session psky.Credentials.Sessions.rotate
    psky.Credentials.Sessions.session_refused psky.Credentials.Sessions.validate_session
    psky.Credentials.Store.enabled_account psky.Credentials.Tokens.create_session
    psky.Prelude.Text.is_ascii_hexdigit psky.Credentials.Tokens.three_parts psky.Prelude.Text.split
    psky.Prelude.bytes_cmp psky.Tests.Environment.read_account psky.Tests.Environment.read_claims
    psky.Tests.Environment.read_header psky.Tests.Environment.shift_back refresh_session shift
    sign_token verify_token
rotation = refl

abbrev logged_out : Store
logged_out = with_rows bound bound.passwords []

abbrev logged_out_everywhere : Store
logged_out_everywhere = with_rows bound [] []

logout : delete_session environment logged_in first_session.refresh_jwt 1500 ≡ ok logged_out
unfolding claims_refused delete_session psky.Credentials.Sessions.accept_refresh
    psky.Credentials.Sessions.find_session psky.Credentials.Sessions.session_refused
    psky.Credentials.Sessions.validate_session psky.Credentials.Store.enabled_account
    psky.Prelude.Text.is_ascii_hexdigit psky.Credentials.Tokens.three_parts psky.Prelude.Text.split
    psky.Prelude.bytes_cmp psky.Tests.Environment.read_account psky.Tests.Environment.read_claims
    psky.Tests.Environment.read_header psky.Tests.Environment.shift_back shift verify_token
logout = refl

abbrev disabled_store : Store
disabled_store = record {
  jwt_key = bound.jwt_key;
  account = some (record {
    document = account_bytes (account_of 5 false (codes "did:web:alice.example"));
    repo_key = 7 ∷ [];
  });
  passwords = [];
  sessions = [];
  evidence = none;
}

invalidation : invalidate_authority environment logged_in ≡ ok disabled_store
unfolding invalidate_authority psky.Credentials.Store.disable psky.Credentials.Store.disable_loaded
    psky.Credentials.Store.load_account psky.Credentials.Store.update_account
    psky.Tests.Environment.read_account
invalidation = refl

short : length first_session.access_jwt ≤ 4096
unfolding shift
short = omega arith

refresh_says : token_claims environment first_session.refresh_jwt ≡ some first_refresh_claims
unfolding psky.Credentials.Tokens.three_parts psky.Prelude.Text.split
    psky.Tests.Environment.read_claims psky.Tests.Environment.shift_back shift token_claims
refresh_says = refl

access_says : token_claims environment first_session.access_jwt ≡ some first_access_claims
unfolding psky.Credentials.Tokens.three_parts psky.Prelude.Text.split
    psky.Tests.Environment.read_claims psky.Tests.Environment.shift_back shift token_claims
access_says = refl

get_session-authenticate_example :
    get_session environment logged_in first_session.access_jwt 2799 ≡ ok (session_info owner)
unfolding psky.Prelude.Text.is_ascii_hexdigit
get_session-authenticate_example =
    get_session-authenticate environment environment_laws bound logged_in (codes "alice.example")
      password sid first_jti access_jti 1000 2799 first_session login (refl, refl) (refl, refl)
      short (omega arith) (omega arith)

other_jti :
    (c : Claims) → token_claims environment first_session.refresh_jwt ≡ some c → c.jti ≢ second_jti
other_jti c h e =
    let same : some first_refresh_claims ≡ some c = sym refresh_says ∙ h in
    let here : first_refresh_claims ≡ c = cc same in
    let jti : first_jti ≡ c.jti = ap (λ (d : Claims). d.jti) here in
    absurd (cc (ap (first_is (λ b. b == b'b')) (jti ∙ e)))

validate_refresh-refresh_session_example :
    validate_refresh environment rotated first_session.refresh_jwt 1600 ≢ ok (session_info owner)
validate_refresh-refresh_session_example =
    validate_refresh-refresh_session environment logged_in rotated first_session.refresh_jwt
      second_jti access_jti 1500 second_session rotation other_jti 1600 (session_info owner)

get_session-delete_session_example :
    (get_session environment logged_out first_session.access_jwt 1600 ≢ ok (session_info owner))
    × (validate_refresh environment logged_out first_session.access_jwt 1600
        ≢ ok (session_info owner))
get_session-delete_session_example =
    get_session-delete_session environment logged_in logged_out first_session.refresh_jwt
      first_session.access_jwt 1500 first_refresh_claims first_access_claims logout refresh_says
      access_says refl 1600 (session_info owner)

get_session-invalidate_authority_example :
    (get_session environment disabled_store first_session.access_jwt 1600 ≢ ok (session_info owner))
    × (validate_refresh environment disabled_store first_session.access_jwt 1600
        ≢ ok (session_info owner))
    × (validate_password environment disabled_store (codes "alice.example") password ≢ ok tt)
get_session-invalidate_authority_example =
    get_session-invalidate_authority environment logged_in disabled_store first_session.access_jwt
      (codes "alice.example") password 1600 (session_info owner) invalidation

Steps-IsValid_example : IsValid disabled_store
Steps-IsValid_example =
    Steps-IsValid environment bound disabled_store
      (next
        (authenticates (codes "alice.example") password 1000 sid first_jti access_jti first_session
          login)
        (next (invalidates invalidation) stop))
      bound-IsValid

first_signed :
    sign_token environment bound.jwt_key first_access_claims access ≡ ok first_session.access_jwt
unfolding sign_token
first_signed = refl

not_refused : claims_refused owner access 2000 first_access_claims ≡ false
unfolding claims_refused psky.Prelude.Text.is_ascii_hexdigit psky.Prelude.bytes_cmp
not_refused = refl

verify_token-sign_token_example :
    verify_token environment bound.jwt_key first_session.access_jwt owner access 2000
    ≡ ok first_access_claims
verify_token-sign_token_example =
    verify_token-sign_token environment environment_laws bound.jwt_key first_session.access_jwt
      owner access 2000 first_access_claims first_signed short not_refused (omega arith)

second_short : length second_session.refresh_jwt ≤ 4096
unfolding shift
second_short = omega arith

validate_refresh-renewed_example :
    validate_refresh environment rotated second_session.refresh_jwt 605_799
    ≡ ok (session_info owner)
unfolding psky.Prelude.Text.is_ascii_hexdigit
validate_refresh-renewed_example =
    validate_refresh-renewed environment environment_laws logged_in rotated
      first_session.refresh_jwt second_jti access_jti 1500 605_799 first_refresh_claims
      second_session rotation refresh_says (refl, refl) second_short (omega arith) (omega arith)

logged_in-IsValid : IsValid logged_in
unfolding has_password psky.Credentials.Sessions.find_session psky.Prelude.bytes_cmp
logged_in-IsValid = record {
  few_passwords = omega arith;
  few_sessions = omega arith;
  named = (refl, tt);
  keyed = (refl, tt);
  linked = (refl, tt);
}

revocation : revoke_password logged_in (codes "laptop") ≡ ok logged_out_everywhere
unfolding psky.Credentials.Identity.valid_name psky.Prelude.bytes_cmp revoke_password
revocation = refl

get_session-revoke_password_example :
    (has_password (codes "laptop") [] ≡ false)
    × ((later : ℕ) (info : SessionInfo)
        → (get_session environment logged_out_everywhere first_session.access_jwt later ≢ ok info)
          × (validate_refresh environment logged_out_everywhere first_session.access_jwt later
              ≢ ok info))
unfolding psky.Credentials.Sessions.find_session psky.Prelude.bytes_cmp
get_session-revoke_password_example =
    get_session-revoke_password environment logged_in logged_out_everywhere (codes "laptop")
      first_session.access_jwt first_access_claims (row first_jti) logged_in-IsValid revocation
      access_says refl refl
