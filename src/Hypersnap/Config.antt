-- ===== src/Hypersnap/Config.antt =====
-- The configuration in crates/psky-hypersnap/src/lib.rs: endpoints, networks and limits.
pub mod Valid
use Prim.Native.String.{String}
use psky.Prelude.{
  ℕ, ◌+◌, ◌*◌, Bool, true, false, not, ◌&&◌, ◌||◌, Option, none, some, Bytes, bytes_ord, ◌=?◌,
  Result, ok, err, ◌>>=◌, ◌>>◌, fail_if, ok_or, is_some, List, [], ◌∷◌, ◌++◌, map, leb, ltb, ◌==◌,
  if◌then◌else◌, length, any,
}
use psky.Prelude.Text.{codes}
use psky.Url.{Url, Host, domain, ipv4, ipv6, ipv4_loopback, ipv6_loopback}
use psky.Hypersnap.Types.{ConfigError, Network, mainnet, testnet, devnet, PreflightConfig}

abbrev pub max_endpoints : ℕ
max_endpoints = 8

abbrev pub default_max_response_bytes : ℕ
default_max_response_bytes = 256 * 1024

abbrev pub max_response_bytes : ℕ
max_response_bytes = 1024 * 1024

abbrev pub default_max_block_delay_secs : ℕ
default_max_block_delay_secs = 30

abbrev pub max_block_delay_secs : ℕ
max_block_delay_secs = 86_400

-- `Duration::from_millis` and `Duration::from_secs`, in nanoseconds.
abbrev pub from_millis : ℕ → ℕ
from_millis n = n * 1_000_000

abbrev pub from_secs : ℕ → ℕ
from_secs n = n * 1_000_000_000

abbrev error : String → ConfigError
error message = record { message = message }

-- `Display` of a network.
unfoldable pub display : Network → Bytes
display mainnet = codes "mainnet"
display testnet = codes "testnet"
display devnet = codes "devnet"

unfoldable pub from_str : Bytes → Result ConfigError Network
from_str value =
    if value =? codes "mainnet"
    then ok mainnet
    else if value =? codes "testnet"
    then ok testnet
    else if value =? codes "devnet"
    then ok devnet
    else err (error "network must be mainnet, testnet, or devnet")

-- The match on the host.
unfoldable pub loopback : Option Host → Result ConfigError Bool
loopback (some (ipv4 ip)) = ok (ipv4_loopback ip)
loopback (some (ipv6 ip)) = ok (ipv6_loopback ip)
loopback (some (domain name)) = ok (name =? codes "localhost")
loopback none = err (error "endpoint URL must have a host")

-- What `new` builds from the URLs.
abbrev pub default_config : List Url → Network → Option ℕ → PreflightConfig
default_config urls expected_network test_fid = record {
  endpoints = urls;
  expected_network = expected_network;
  test_fid = test_fid;
  timeout = from_secs 5;
  max_response_bytes = default_max_response_bytes;
  max_block_delay_secs = default_max_block_delay_secs;
}

-- `test_fid == Some(0)`
abbrev pub is_zero : Option ℕ → Bool
is_zero none = false
is_zero (some fid) = fid == 0

module _ (parse_url : Bytes → Option Url) where
  unfoldable pub validate_endpoint : Bytes → Result ConfigError Url
  validate_endpoint input = do
    endpoint ← ok_or (parse_url input) (error "invalid endpoint URL")
    fail_if (not (endpoint.username =? []) || is_some endpoint.password)
        (error "endpoint URLs must not contain credentials")
    fail_if (is_some endpoint.query || is_some endpoint.fragment)
        (error "endpoint URLs must not contain queries or fragments")
    fail_if (not (endpoint.path =? codes "/")) (error "endpoint URL must use the root path")
    local ← loopback endpoint.host
    if endpoint.scheme =? codes "https"
        then ok endpoint
        else if endpoint.scheme =? codes "http" && local
        then ok endpoint
        else err (error "remote endpoints require HTTPS; HTTP requires loopback")

  -- The loop of `new`; two URLs are equal when their texts are.
  unfoldable pub add_endpoints : List Bytes → List Url → Result ConfigError (List Url)
  unfolding validate_endpoint
  add_endpoints [] urls = ok urls
  add_endpoints (input ∷ rest) urls = do
    endpoint ← validate_endpoint input
    fail_if (any (λ url. url.text =? endpoint.text) urls)
        (error "duplicate endpoints are not allowed")
    add_endpoints rest (urls ++ endpoint ∷ [])

  unfoldable pub new : List Bytes → Network → Option ℕ → Result ConfigError PreflightConfig
  unfolding add_endpoints
  new endpoints expected_network test_fid = do
    fail_if (length endpoints == 0 || ltb max_endpoints (length endpoints))
        (error "configure between 1 and 8 endpoints")
    fail_if (is_zero test_fid) (error "test FID must be greater than zero")
    urls ← add_endpoints endpoints []
    ok (default_config urls expected_network test_fid)

unfoldable pub with_limits : PreflightConfig → ℕ → ℕ → Result ConfigError PreflightConfig
with_limits config timeout response_bytes = do
  fail_if (not (leb (from_millis 10) timeout && leb timeout (from_secs 30)))
      (error "request timeout must be 10ms through 30s")
  fail_if (response_bytes == 0 || ltb max_response_bytes response_bytes)
      (error "response limit must be 1 through 1048576 bytes")
  ok (record config { timeout = timeout; max_response_bytes = response_bytes })

-- The texts of the endpoints.
unfoldable pub endpoints : PreflightConfig → List Bytes
endpoints config = map (λ (url : Url). url.text) config.endpoints

unfoldable pub with_max_block_delay_secs : PreflightConfig → ℕ → Result ConfigError PreflightConfig
with_max_block_delay_secs config seconds = do
  fail_if (not (leb 1 seconds && leb seconds max_block_delay_secs))
      (error "maximum block delay must be 1 through 86400 seconds")
  ok (record config { max_block_delay_secs = seconds })
