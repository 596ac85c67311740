-- ===== src/Credentials/Identity.antt =====
-- The syntax checks of crates/psky-credentials/src/lib.rs: identities, names and authorities.
use psky.Prelude.{
  ℕ, Bool, true, false, not, ◌&&◌, ◌||◌, Option, none, some, Bytes, bytes_ord, ◌=?◌, Result, ok,
  err, ◌>>=◌, ◌>>◌, fail_if, ok_or, is_some, is_none, [], ◌∷◌, ◌++◌, leb, ◌==◌, if◌then◌else◌,
  length, all,
}
use psky.Prelude.Text.{
  codes, is_ascii_lowercase, is_ascii_digit, is_ascii_alphabetic, is_ascii_alphanumeric, one_of,
  has_byte, split, last_part, strip_prefix, starts_with, ends_with, first_is, decimal,
}
use psky.Credentials.Types.{Error, invalid_input, Identity, Env}
use psky.Url.{Url}

-- The closure on one label of a hostname.
unfoldable pub label_valid : Bytes → Bool
label_valid label =
    not (length label == 0)
    && leb (length label) 63
    && not (starts_with (codes "-") label)
    && not (ends_with (codes "-") label)
    && all (λ byte. is_ascii_lowercase byte || is_ascii_digit byte || byte == b'-') label

-- The last label; `as_bytes()[0]` is behind the test that no label is empty.
unfoldable pub tld_valid : Bytes → Bool
tld_valid tld =
    first_is is_ascii_alphabetic tld
    && not (
        tld =? codes "arpa"
        || tld =? codes "invalid"
        || tld =? codes "local"
        || tld =? codes "onion")

unfoldable pub valid_hostname : Bytes → Bool
unfolding tld_valid
valid_hostname host =
    leb (length host) 253
    && has_byte b'.' host
    && all label_valid (split b'.' host)
    && tld_valid (last_part (split b'.' host))

-- `char::is_whitespace`, on ASCII. A byte beyond ASCII fails the last test of `valid_name` anyway.
unfoldable pub is_whitespace : ℕ → Bool
is_whitespace c = leb 9 c && leb c 13 || c == b' '

-- The last character is no whitespace.
unfoldable pub ends_trimmed : ℕ → Bytes → Bool
ends_trimmed d [] = not (is_whitespace d)
ends_trimmed d (e ∷ s) = ends_trimmed e s

-- `name.trim() == name`
unfoldable pub is_trimmed : Bytes → Bool
unfolding is_whitespace ends_trimmed
is_trimmed [] = true
is_trimmed (c ∷ s) = not (is_whitespace c) && ends_trimmed c s

unfoldable pub valid_name : Bytes → Bool
unfolding is_trimmed
valid_name name =
    not (length name == 0)
    && leb (length name) 64
    && is_trimmed name
    && all (λ byte. leb 0x20 byte && leb byte 0x7e) name

unfoldable pub valid_authority : Bytes → Bool
valid_authority authority =
    not (length authority == 0)
    && leb (length authority) 128
    && all (λ byte. is_ascii_alphanumeric byte || one_of (codes ":_-") byte) authority

-- `url.port().map(|port| format!("%3A{port}")).unwrap_or_default()`, behind `did:web:localhost`.
unfoldable pub local_did : Option ℕ → Bytes
local_did none = codes "did:web:localhost"
local_did (some port) = codes "did:web:localhost%3A" ++ decimal port

-- The first test of `validate`, on the parsed URL and the handle.
unfoldable pub is_plain_origin : Url → Bytes → Bool
is_plain_origin url handle = not (
    not (url.username =? [])
    || is_some url.password
    || is_some url.query
    || is_some url.fragment
    || not (url.path =? codes "/")
    || is_none url.host_str
    || not (valid_hostname handle))

unfoldable pub is_port : ℕ → Option ℕ → Bool
is_port n none = false
is_port n (some port) = port == n

unfoldable pub is_host : Option Bytes → Bytes → Bool
is_host none host = false
is_host (some h) host = h =? host

-- The branch for a loopback origin.
unfoldable pub validate_local : Identity → Url → Result Error (Unit {0})
unfolding is_port
validate_local identity url =
    if identity.did =? local_did url.port
      && identity.service_did =? local_did url.port
      && ends_with (codes ".test") identity.handle
      && not (is_port 0 url.port)
    then ok tt
    else err invalid_input

-- The branch for a public origin.
unfoldable pub validate_public : Identity → Url → Result Error (Unit {0})
unfolding is_host
validate_public identity url = do
  did_host ← ok_or (strip_prefix (codes "did:web:") identity.did) invalid_input
  service_host ← ok_or (strip_prefix (codes "did:web:") identity.service_did) invalid_input
  fail_if
      (not (valid_hostname did_host)
        || not (identity.handle =? did_host)
        || not (valid_hostname service_host)
        || ends_with (codes ".test") identity.handle
        || ends_with (codes ".test") service_host)
      invalid_input
  fail_if
      (not (url.scheme =? codes "https")
        || is_some url.port
        || not (is_host url.host_str service_host))
      invalid_input

unfoldable pub validate : Env → Identity → Result Error (Unit {0})
unfolding is_plain_origin
validate env identity = do
  url ← ok_or (env.parse_url identity.service_url) invalid_input
  fail_if (not (is_plain_origin url identity.handle)) invalid_input
  if url.scheme =? codes "http" && is_host url.host_str (codes "localhost")
      then validate_local identity url
      else validate_public identity url
