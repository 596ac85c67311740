-- ===== src/Account/Settings.antt =====
-- `AccountSettings` of crates/psky/src/settings.rs. Its error is the fixed text of `SettingsError::Invalid`.
use psky.Prelude.{
  ℕ, Bool, true, false, not, ◌&&◌, ◌||◌, Option, none, some, Bytes, bytes_ord, ◌=?◌, Result, ok,
  ◌>>=◌, ◌>>◌, fail_if, ok_or, map_err, map_or, is_some, is_none, [], ◌++◌, leb, ltb, ◌==◌,
  if◌then◌else◌, length,
}
use psky.Prelude.Text.{codes, has_byte, decimal}
use psky.Url.{Url}
use psky.Credentials.Types.{Identity}
use psky.Credentials.Identity.{validate}
use psky.Farcaster.Urls.{is_local}
use psky.Account.Types.{AccountSettings, Env}

abbrev pub max_test_fid : ℕ
max_test_fid = 9_007_199_254_740_991

abbrev needs_fid : Bytes
needs_fid = codes "account login requires a permitted FID"

abbrev needs_origin : Bytes
needs_origin =
    codes
      "account URLs must be HTTPS origins without credentials, paths or queries; HTTP loopback is allowed for development"

unfoldable pub origin_refused : Url → Bool
unfolding is_local
origin_refused url =
    not (url.scheme =? codes "https" || url.scheme =? codes "http" && is_local url)
    || not (url.username =? [])
    || is_some url.password
    || is_some url.query
    || is_some url.fragment
    || not (url.path =? codes "/")
    || is_none url.host_str

unfoldable pub origin : Env → Bytes → Result Bytes Url
unfolding origin_refused
origin env value = do
  fail_if (ltb 2048 (length value)) needs_origin
  url ← ok_or (env.auth.parse_url value) needs_origin
  fail_if (origin_refused url) needs_origin
  ok url

-- The host with its port, where it has one.
unfoldable pub host_authority : Bytes → Option ℕ → Bytes
host_authority host none = host
host_authority host (some port) = host ++ (codes "%3A" ++ decimal port)

unfoldable pub identity : Env → AccountSettings → Result Bytes Identity
unfolding origin host_authority
identity env settings = do
  url ← origin env settings.service_url
  host ← ok_or url.host_str (codes "missing account hostname")
  ok (record {
    handle = if host =? codes "localhost" then codes "psky.test" else host;
    did = codes "did:web:" ++ host_authority host url.port;
    service_url = env.origin_text url;
    service_did = codes "did:web:" ++ host_authority host url.port;
  })

unfoldable pub fid_refused : AccountSettings → Bool
fid_refused settings =
    map_or false (λ fid. not (leb 1 fid && leb fid max_test_fid)) settings.allowed_fid
    || settings.enabled && is_none settings.allowed_fid

-- The checks of a service that is configured.
unfoldable pub validate_service : Env → AccountSettings → Result Bytes (Unit {0})
unfolding origin identity
validate_service env settings = do
  service ← origin env settings.service_url
  fail_if (map_or true (has_byte b':') service.host_str)
      (codes "account service requires a DNS hostname or IPv4 loopback")
  rpc ← origin env settings.optimism_rpc_url
  made ← identity env settings
  map_err (λ e. codes "use a canonical HTTPS hostname, or http://localhost:port for development")
      (validate env.credentials made)

-- The RPC origin alone.
abbrev validate_rpc : Env → AccountSettings → Result Bytes (Unit {0})
validate_rpc env settings = do rpc ← origin env settings.optimism_rpc_url; ok tt

unfoldable pub validate_settings : Env → AccountSettings → Result Bytes (Unit {0})
unfolding fid_refused validate_service
validate_settings env settings = do
  fail_if (fid_refused settings) needs_fid
  if length settings.service_url == 0 && not settings.enabled
      then validate_rpc env settings
      else validate_service env settings
