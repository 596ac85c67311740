-- ===== src/Url.antt =====
-- `url::Url`: what its accessors give, as fields. The parser itself belongs to another crate.
use psky.Prelude.{ℕ, ◌/◌, ◌^◌, Bool, Option, Bytes, ◌==◌, List}

-- `url::Host`; an address is its number.
pub data Host : Type 0 where
  domain : Bytes → Host
  ipv4 : ℕ → Host
  ipv6 : ℕ → Host

pub record Url : Type 0 where
  pub scheme : Bytes
  pub username : Bytes
  pub password : Option Bytes
  pub host : Option Host
  pub host_str : Option Bytes
  pub port : Option ℕ
  pub path : Bytes
  pub query : Option Bytes
  pub fragment : Option Bytes
  -- `as_str`, by which two are compared.
  pub text : Bytes
  -- The slice from before the host to after the port.
  pub authority : Bytes
  -- `query_pairs`
  pub query_pairs : List (Bytes × Bytes)

-- `Ipv4Addr::is_loopback` and `Ipv6Addr::is_loopback`.
unfoldable pub ipv4_loopback : ℕ → Bool
ipv4_loopback address = address / 2 ^ 24 == 127

unfoldable pub ipv6_loopback : ℕ → Bool
ipv6_loopback address = address == 1
