-- ===== src/Hypersnap/Config/Valid.antt =====
-- What every configuration that was built satisfies.
use psky.Prelude.{
  ℕ, ◌+◌, ◌/◌, ◌^◌, ==_iff, ◌≤◌, ◌<◌, ◌≡◌, refl, ◌⊎◌, inl, inr, Bool, true, false, Bool-cases, not,
  ◌||◌, ◌&&◌, Option, none, some, Bytes, bytes_ord, ◌=?◌, =?_iff, is_some, ok, err, on_ok, on_pass,
  ok-injective, ok_or, List, [], ◌∷◌, ◌++◌, arith, length, length-append, All, All-append, any,
  or_false, not-false, leb, ltb, ◌==◌, if◌then◌else◌,
}
use mathlib.Core.Path.{subst}
use psky.Prelude.Distinct.{All-map, All-of_any, Distinct, Distinct-snoc}
use psky.Prelude.Text.{codes}
use psky.Url.{Url, Host, domain, ipv4, ipv6, ipv4_loopback, ipv6_loopback}
use psky.Hypersnap.Types.{ConfigError, Network, PreflightConfig}
use psky.Hypersnap.Config.{
  default_config, is_zero, max_endpoints, max_response_bytes, max_block_delay_secs, from_millis,
  from_secs, loopback, validate_endpoint, add_endpoints, new, with_limits,
  with_max_block_delay_secs,
}

-- The name localhost, an address of 127.0.0.0/8, or ::1.
abbrev pub OnThisMachine : Option Host → Type 0
OnThisMachine (some (domain name)) = name ≡ codes "localhost"
OnThisMachine (some (ipv4 ip)) = ip / 2 ^ 24 ≡ 127
OnThisMachine (some (ipv6 ip)) = ip ≡ 1
OnThisMachine none = ⊥

loopback-OnThisMachine : (host : Option Host) → loopback host ≡ ok true → OnThisMachine host
unfolding loopback ipv4_loopback ipv6_loopback
loopback-OnThisMachine none h = absurd (cc)
loopback-OnThisMachine (some (domain name)) h = (=?_iff name (codes "localhost")).0 (ok-injective h)
loopback-OnThisMachine (some (ipv4 ip)) h = (==_iff (ip / 2 ^ 24) 127).0 (ok-injective h)
loopback-OnThisMachine (some (ipv6 ip)) h = (==_iff ip 1).0 (ok-injective h)

-- A bare origin, over HTTPS or on this machine.
pub record IsEndpoint (url : Url) : Type 0 where
  pub no_username : url.username ≡ []
  pub no_password : url.password ≡ none
  pub no_query : url.query ≡ none
  pub no_fragment : url.fragment ≡ none
  pub at_root : url.path ≡ codes "/"
  pub protected :
      (url.scheme ≡ codes "https") ⊎ ((url.scheme ≡ codes "http") × OnThisMachine url.host)

abbrev text_of : Url → Bytes
text_of url = url.text

pub record IsValid (config : PreflightConfig) : Type 0 where
  pub endpoint_count : (1 ≤ length config.endpoints) × (length config.endpoints ≤ 8)
  pub endpoints_valid : All IsEndpoint config.endpoints
  pub endpoints_distinct : Distinct text_of config.endpoints
  pub fid_positive : (fid : ℕ) → config.test_fid ≡ some fid → 0 < fid
  pub timeout_bounds : (from_millis 10 ≤ config.timeout) × (config.timeout ≤ from_secs 30)
  pub response_bounds : (1 ≤ config.max_response_bytes) × (config.max_response_bytes ≤ 1_048_576)
  pub delay_bounds : (1 ≤ config.max_block_delay_secs) × (config.max_block_delay_secs ≤ 86_400)

-- The configurations that the program can build.
pub data Built (parse_url : Bytes → Option Url) : PreflightConfig → Type 0 where
  made :
      (inputs : List Bytes) (network : Network) (fid : Option ℕ) (config : PreflightConfig)
      → new parse_url inputs network fid ≡ ok config
      → Built parse_url config
  limited :
      (timeout response_bytes : ℕ) (config changed : PreflightConfig)
      → Built parse_url config
      → with_limits config timeout response_bytes ≡ ok changed
      → Built parse_url changed
  delayed :
      (seconds : ℕ) (config changed : PreflightConfig)
      → Built parse_url config
      → with_max_block_delay_secs config seconds ≡ ok changed
      → Built parse_url changed

none_of_is_some {ℓ} : {A : Type ℓ} (o : Option A) → is_some o ≡ false → o ≡ none
none_of_is_some none h = refl
none_of_is_some (some a) h = cc

-- The last test of `validate_endpoint`.
protected_scheme :
    (scheme : Bytes) (local : Bool) (url result : Url) (e : ConfigError)
    → (if scheme =? codes "https"
        then ok url
        else if scheme =? codes "http" && local
        then ok url
        else err e)
      ≡ ok result
    → (url ≡ result) × ((scheme ≡ codes "https") ⊎ ((scheme ≡ codes "http") × (local ≡ true)))
protected_scheme scheme local url result e h = elim (Bool-cases (scheme =? codes "https")) [
  | inl https ↦ (ok-injective (rw https at h), inl ((=?_iff scheme (codes "https")).0 https))
  | inr other ↦ elim (Bool-cases (scheme =? codes "http")) [
    | inl http ↦ elim (Bool-cases local) [
      | inl here ↦ (
        ok-injective (rw (other, http, here) at h),
        inr ((=?_iff scheme (codes "http")).0 http, here),
      )
      | inr remote ↦ absurd (cc (rw (other, http, remote) at h))
    ]
    | inr neither ↦ absurd (cc (rw (other, neither) at h))
  ]
]

module _ (parse_url : Bytes → Option Url) where
  validate_endpoint-IsEndpoint :
      (input : Bytes) (url : Url) → validate_endpoint parse_url input ≡ ok url → IsEndpoint url
  unfolding validate_endpoint
  validate_endpoint-IsEndpoint input url h = on_ok (ok_or (parse_url input) _) _ h λ u parsed h.
      on_pass (not (u.username =? []) || is_some u.password) _ _ h λ credentials h.
        on_pass (is_some u.query || is_some u.fragment) _ _ h λ extra h.
          on_pass (not (u.path =? codes "/")) _ _ h λ path h.
            on_ok (loopback u.host) _ h λ local at_host h.
              let (same, scheme) = protected_scheme u.scheme local u url _ h in
              let (username, password) = or_false _ _ credentials in
              let (query, fragment) = or_false _ _ extra in
              subst IsEndpoint same (record {
                no_username = (=?_iff u.username []).0 (not-false _ username);
                no_password = none_of_is_some u.password password;
                no_query = none_of_is_some u.query query;
                no_fragment = none_of_is_some u.fragment fragment;
                at_root = (=?_iff u.path (codes "/")).0 (not-false _ path);
                protected = protected u local scheme at_host;
              })
    where
      protected :
          (u : Url) (local : Bool)
          → ((u.scheme ≡ codes "https") ⊎ ((u.scheme ≡ codes "http") × (local ≡ true)))
          → loopback u.host ≡ ok local
          → (u.scheme ≡ codes "https") ⊎ ((u.scheme ≡ codes "http") × OnThisMachine u.host)
      protected u local (inl https) at_host = inl https
      protected u local (inr (http, here)) at_host =
          inr (http, loopback-OnThisMachine u.host (rw here at at_host))

  -- The loop keeps what it has.
  add_endpoints-IsValid :
      (inputs : List Bytes) (urls result : List Url)
      → add_endpoints parse_url inputs urls ≡ ok result
      → All IsEndpoint urls
      → Distinct text_of urls
      → All IsEndpoint result
        × Distinct text_of result
        × (length result ≡ length urls + length inputs)
  unfolding add_endpoints
  add_endpoints-IsValid [] urls result h valid distinct =
      let same : urls ≡ result = ok-injective h in
      subst (λ r. All IsEndpoint r × Distinct text_of r × (length r ≡ length urls + 0)) same
        (valid, distinct, omega arith)
  add_endpoints-IsValid (input ∷ rest) urls result h valid distinct =
      on_ok (validate_endpoint parse_url input) _ h λ u checked h.
        on_pass (any (λ url. url.text =? u.text) urls) _ _ h λ unseen h.
          let apart =
            All-map (λ v e same. absurd (cc (e, (=?_iff v.text u.text).1 same))) urls
              (All-of_any _ urls unseen) in
          let (good, separate, size) =
            add_endpoints-IsValid rest (urls ++ u ∷ []) result h
              (All-append IsEndpoint urls (u ∷ []) valid
                (validate_endpoint-IsEndpoint input u checked, tt))
              (Distinct-snoc text_of urls u apart distinct) in
          (good, separate, omega (arith, size, length-append urls (u ∷ [])))

  new-IsValid :
      (inputs : List Bytes) (network : Network) (fid : Option ℕ) (config : PreflightConfig)
      → new parse_url inputs network fid ≡ ok config
      → IsValid config
  unfolding new
  new-IsValid inputs network fid config h =
      on_pass (length inputs == 0 || ltb max_endpoints (length inputs)) _ _ h λ sized h.
        on_pass (is_zero fid) _ _ h λ positive h.
          on_ok (add_endpoints parse_url inputs []) _ h λ urls added h.
            let (good, separate, size) = add_endpoints-IsValid inputs [] urls added tt tt in
            let same : default_config urls network fid ≡ config = ok-injective h in
            subst IsValid same (record {
              endpoint_count = ground (arith, size, sized);
              endpoints_valid = good;
              endpoints_distinct = separate;
              fid_positive = λ n e. ground (arith, positive, e);
              timeout_bounds = omega arith;
              response_bounds = omega arith;
              delay_bounds = omega arith;
            })

  -- Every configuration that `new`, `with_limits` and `with_max_block_delay_secs` can build is valid: one
  -- to eight distinct endpoints, each a bare origin over HTTPS, or over HTTP at localhost, in 127.0.0.0/8
  -- or at ::1, a positive account number, and limits in their ranges.
  pub Built-IsValid : (config : PreflightConfig) → Built parse_url config → IsValid config
  unfolding with_limits with_max_block_delay_secs
  Built-IsValid config (made inputs network fid _ h) = new-IsValid inputs network fid config h
  Built-IsValid changed (limited timeout response_bytes config _ built h) =
      on_pass (not (leb (from_millis 10) timeout && leb timeout (from_secs 30))) _ _ h λ within h.
        on_pass (response_bytes == 0 || ltb max_response_bytes response_bytes) _ _ h λ small h.
          let before = Built-IsValid config built in
          let same : record config { timeout = timeout; max_response_bytes = response_bytes }
              ≡ changed =
            ok-injective h in
          subst IsValid same (record {
            endpoint_count = before.endpoint_count;
            endpoints_valid = before.endpoints_valid;
            endpoints_distinct = before.endpoints_distinct;
            fid_positive = before.fid_positive;
            timeout_bounds = ground (arith, within);
            response_bounds = ground (arith, small);
            delay_bounds = before.delay_bounds;
          })
  Built-IsValid changed (delayed seconds config _ built h) =
      on_pass (not (leb 1 seconds && leb seconds max_block_delay_secs)) _ _ h λ within h.
        let before = Built-IsValid config built in
        let same : record config { max_block_delay_secs = seconds } ≡ changed = ok-injective h in
        subst IsValid same (record {
          endpoint_count = before.endpoint_count;
          endpoints_valid = before.endpoints_valid;
          endpoints_distinct = before.endpoints_distinct;
          fid_positive = before.fid_positive;
          timeout_bounds = before.timeout_bounds;
          response_bounds = before.response_bounds;
          delay_bounds = ground (arith, within);
        })
