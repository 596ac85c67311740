-- ===== src/Farcaster/Urls.antt =====
-- The checks of URLs and channels in crates/psky-farcaster-auth/src/client.rs.
use psky.Prelude.{
  ℕ, Bool, false, not, ◌&&◌, ◌||◌, Bytes, bytes_ord, ◌=?◌, Result, ok, ◌>>=◌, ◌>>◌, fail_if, ok_or,
  map_or, is_some, is_none, List, [], ◌∷◌, leb, ltb, ◌==◌, length, all, any,
}
use psky.Prelude.Text.{
  codes, is_ascii_alphanumeric, is_ascii_digit, one_of, has_byte, split, first_is,
}
use psky.Prelude.Text.Radix.{from_str_radix}
use psky.Url.{Url}
use psky.Farcaster.Types.{
  AuthError, invalid_config, invalid_relay_response, AuthConfig, AuthClient, Env,
}

-- A part of an IPv4 address: up to three digits, no zero in front, at most 255.
unfoldable pub octet_valid : Bytes → Bool
octet_valid part =
    all is_ascii_digit part
    && leb 1 (length part)
    && leb (length part) 3
    && not (ltb 1 (length part) && first_is (λ c. c == b'0') part)
    && map_or false (λ n. leb n 255) (from_str_radix 10 part)

-- `host.parse::<IpAddr>().is_ok_and(|ip| ip.is_loopback())`: a host that is an IPv6 address stands in
-- brackets, which the parser refuses, so that only IPv4 is left.
unfoldable pub is_loopback_ip : Bytes → Bool
unfolding octet_valid
is_loopback_ip host = elim (split b'.' host) [
  | a ∷ b ∷ c ∷ d ∷ [] ↦
      octet_valid a && octet_valid b && octet_valid c && octet_valid d && a =? codes "127"
  | _ ↦ false
]

unfoldable pub is_control_or_space : ℕ → Bool
is_control_or_space b = ltb b 32 || b == 127 || b == b' '

unfoldable pub is_local : Url → Bool
unfolding is_loopback_ip
is_local url = map_or false (λ host. host =? codes "localhost" || is_loopback_ip host) url.host_str

-- The conditions under which `safe_url` refuses a URL.
unfoldable pub url_refused : Bytes → Url → Bool
unfolding is_control_or_space is_local
url_refused input url =
    (not (url.scheme =? codes "https") && not (url.scheme =? codes "http" && is_local url))
    || is_none url.host_str
    || has_byte b'@' input
    || not (url.username =? [])
    || is_some url.password
    || is_some url.query
    || is_some url.fragment
    || any is_control_or_space input

unfoldable pub safe_url : Env → Bytes → Result AuthError Url
unfolding url_refused
safe_url env input = do
  fail_if (ltb 2048 (length input)) invalid_config
  url ← ok_or (env.parse_url input) invalid_config
  fail_if (url_refused input url) invalid_config
  ok url

unfoldable pub domain_valid : Bytes → Bool
domain_valid domain =
    leb (length domain) 253
    && leb 1 (length domain)
    && all (λ b. is_ascii_alphanumeric b || one_of (codes ".:-") b) domain

-- `AuthConfig::validate`
unfoldable pub validate : Env → AuthConfig → Result AuthError (Unit {0})
unfolding safe_url domain_valid
validate env config = do
  uri ← safe_url env config.uri
  fail_if (not (config.domain =? uri.authority) || not (domain_valid config.domain)) invalid_config
  relay ← safe_url env config.relay_url
  fail_if (not (relay.path =? codes "/")) invalid_config
  rpc ← safe_url env config.optimism_rpc_url
  ok tt

-- `AuthClient::new`
unfoldable pub new : Env → AuthConfig → Result AuthError AuthClient
unfolding validate
new env config = do
  validate env config
  relay ← safe_url env config.relay_url
  rpc ← safe_url env config.optimism_rpc_url
  ok (record { config = config; relay = relay; rpc = rpc })

unfoldable pub valid_channel : Bytes → Bool
valid_channel input =
    leb 8 (length input)
    && leb (length input) 128
    && all (λ b. is_ascii_alphanumeric b || one_of (codes "_-") b) input

-- The query is the token alone.
unfoldable pub is_token_query : Bytes → List (Bytes × Bytes) → Bool
is_token_query token [] = false
is_token_query token ((name, value) ∷ []) = name =? codes "channelToken" && value =? token
is_token_query token (_ ∷ _ ∷ _) = false

unfoldable pub validate_auth_url : Env → Bytes → Bytes → Result AuthError (Unit {0})
unfolding is_token_query
validate_auth_url env input token = do
  fail_if (ltb 1024 (length input)) invalid_relay_response
  url ← ok_or (env.parse_url input) invalid_relay_response
  fail_if
      (not (url.scheme =? codes "https")
        || not (
            map_or false (λ host. host =? codes "farcaster.xyz" || host =? codes "warpcast.com")
              url.host_str)
        || not (url.path =? codes "/~/siwf")
        || is_some url.port
        || not (url.username =? [])
        || is_some url.password
        || is_some url.fragment
        || not (is_token_query token url.query_pairs))
      invalid_relay_response
