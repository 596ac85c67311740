-- ===== src/Hypersnap/Node/Consistent.antt =====
-- How the fields of a node's report hang together.
use psky.Prelude.{
  ℕ, suc, ◌≤◌, ◌≡◌, refl, ◌∙◌, ◌⊎◌, inl, inr, Option, none, some, Option-cases, Bytes, bytes_ord,
  ◌=?◌, is_some, if◌then◌else◌, Bool-cases, Result-cases, [], ◌∷◌, arith, length, length-append,
}
use psky.Json.{Value}
use psky.Url.{Url}
use psky.Prelude.Text.{codes, decimal}
use psky.Hypersnap.Types.{
  Network, same_network, Compatibility, RequestEvidence, PreflightConfig, NodeInfo, NodeReport,
}
use psky.Hypersnap.Parse.{parse_info, from_info, parse_network}
use psky.Hypersnap.Request.{Web, request}
use psky.Hypersnap.Node.{
  supported_version, compatible_if, as_malformed, new_report, add_info, add_network, add_storage,
  add_authority, inspect_fid, inspect_node,
}

-- The judgement on the version and the shards is that on the information of the report.
pub record Judged (config : PreflightConfig) (node : NodeReport) (info : NodeInfo) : Type 0 where
  pub value : Value
  pub parsed : parse_info value ≡ some info
  pub has_info : node.info ≡ some info
  pub protocol : node.protocol ≡ compatible_if (info.version =? supported_version)
  pub freshness : node.freshness ≡ from_info info config.max_block_delay_secs

abbrev pub InfoJudged : PreflightConfig → NodeReport → Type 0
InfoJudged config node =
    ((info : NodeInfo) × Judged config node info)
    ⊎ ((node.info ≡ none) × (node.protocol ≡ Compatibility.unknown))

-- So is the judgement on the network.
abbrev pub NetworkJudged : PreflightConfig → NodeReport → Type 0
NetworkJudged config node =
    (node.network ≡ Compatibility.unknown)
    ⊎ ((network : Network) × (node.observed_network ≡ some network)
        × (node.network ≡ compatible_if (same_network network config.expected_network)))

add_info-InfoJudged :
    (config : PreflightConfig) (endpoint : Url) (answer : Option Value) (evidence : RequestEvidence)
    → InfoJudged config (add_info config (new_report endpoint) (answer, evidence))
unfolding add_info
add_info-InfoJudged config endpoint none evidence = inr (refl, refl)
add_info-InfoJudged config endpoint (some value) evidence = elim (Option-cases (parse_info value)) [
  | inl bad ↦ inr (rw (add_info, bad) refl, rw (add_info, bad) refl)
  | inr (info, good) ↦ inl (
    info,
    record {
      value = value;
      parsed = good;
      has_info = rw (add_info, good) refl;
      protocol = rw (add_info, good) refl;
      freshness = rw (add_info, good) refl;
    },
  )
]

-- What the later answers leave alone.
abbrev SameInfo : NodeReport → NodeReport → Type 0
SameInfo a b =
    (b.info ≡ a.info)
    × (b.protocol ≡ a.protocol)
    × (b.freshness ≡ a.freshness)
    × (b.endpoint ≡ a.endpoint)
    × (length b.requests ≡ suc (length a.requests))

abbrev SameNetwork : NodeReport → NodeReport → Type 0
SameNetwork a b = (b.network ≡ a.network) × (b.observed_network ≡ a.observed_network)

SameInfo-add_network :
    (config : PreflightConfig) (fid : ℕ) (node : NodeReport) (answer : Option Value)
    (evidence : RequestEvidence)
    → SameInfo node (add_network config fid node (answer, evidence))
unfolding add_network
SameInfo-add_network config fid node answer evidence = ground (
  arith,
  length-append node.requests (evidence ∷ []),
  length-append node.requests (as_malformed evidence ∷ []),
)

SameInfo-add_storage :
    (node : NodeReport) (answer : Option Value) (evidence : RequestEvidence)
    → SameInfo node (add_storage node (answer, evidence))
      × SameNetwork node (add_storage node (answer, evidence))
unfolding add_storage
SameInfo-add_storage node answer evidence = ground (
  arith,
  length-append node.requests (evidence ∷ []),
  length-append node.requests (as_malformed evidence ∷ []),
)

SameInfo-add_authority :
    (fid : ℕ) (node : NodeReport) (answer : Option Value) (evidence : RequestEvidence)
    → SameInfo node (add_authority fid node (answer, evidence))
      × SameNetwork node (add_authority fid node (answer, evidence))
unfolding add_authority
SameInfo-add_authority fid node answer evidence = ground (
  arith,
  length-append node.requests (evidence ∷ []),
  length-append node.requests (as_malformed evidence ∷ []),
)

NetworkJudged-add_network :
    (config : PreflightConfig) (fid : ℕ) (node : NodeReport) (answer : Option Value)
    (evidence : RequestEvidence)
    → node.network ≡ Compatibility.unknown
    → NetworkJudged config (add_network config fid node (answer, evidence))
unfolding add_network
NetworkJudged-add_network config fid node none evidence e = inl e
NetworkJudged-add_network config fid node (some value) evidence e =
    elim (Result-cases (parse_network value fid)) [
      | inr (_, bad) ↦ inl (rw (add_network, bad) e)
      | inl (none, unseen) ↦ inl (rw (add_network, unseen) e)
      | inl (some network, seen) ↦
          inr (network, rw (add_network, seen) refl, rw (add_network, seen) refl)
    ]

-- A report starts with one request and nothing about the network.
add_info-start :
    (config : PreflightConfig) (endpoint : Url) (answer : Option Value) (evidence : RequestEvidence)
    → let node = add_info config (new_report endpoint) (answer, evidence) in
      (node.network ≡ Compatibility.unknown)
      × (node.endpoint ≡ endpoint.text)
      × (length node.requests ≡ 1)
unfolding add_info
add_info-start config endpoint answer evidence = ground arith

InfoJudged-SameInfo :
    (config : PreflightConfig) (a b : NodeReport)
    → SameInfo a b
    → InfoJudged config a
    → InfoJudged config b
InfoJudged-SameInfo config a b same (inl (info, j)) = inl (
  info,
  record {
    value = j.value;
    parsed = j.parsed;
    has_info = same.0 ∙ j.has_info;
    protocol = same.1 ∙ j.protocol;
    freshness = same.2 ∙ j.freshness;
  },
)
InfoJudged-SameInfo config a b same (inr (e, p)) = inr (same.0 ∙ e, same.1 ∙ p)

NetworkJudged-SameNetwork :
    (config : PreflightConfig) (a b : NodeReport)
    → SameNetwork a b
    → NetworkJudged config a
    → NetworkJudged config b
NetworkJudged-SameNetwork config a b same (inl e) = inl (same.0 ∙ e)
NetworkJudged-SameNetwork config a b same (inr (network, seen, e)) =
    inr (network, same.1 ∙ seen, same.0 ∙ e)

-- What is inspected of an endpoint is consistent, in one request or in four.
pub record Consistent (config : PreflightConfig) (endpoint : Url) (node : NodeReport) : Type 0 where
  pub of_endpoint : node.endpoint ≡ endpoint.text
  pub info_judged : InfoJudged config node
  pub network_judged : NetworkJudged config node
  pub few_requests : length node.requests ≤ 4

inspect_fid-Consistent :
    (web : Web) (config : PreflightConfig) (endpoint : Url) (node : NodeReport) (fid : ℕ)
    → node.network ≡ Compatibility.unknown
    → node.endpoint ≡ endpoint.text
    → length node.requests ≡ 1
    → InfoJudged config node
    → Consistent config endpoint (inspect_fid web config endpoint node fid)
unfolding inspect_fid
inspect_fid-Consistent web config endpoint node fid unknown at_endpoint one judged =
    let by_fid : Bytes × Bytes = (codes "fid", decimal fid) in
    let casts =
      request web config endpoint (codes "/v1/castsByFid")
        (by_fid ∷ (codes "pageSize", codes "1") ∷ []) in
    let limits = request web config endpoint (codes "/v1/storageLimitsByFid") (by_fid ∷ []) in
    let events =
      request web config endpoint (codes "/v1/onChainEventsByFid")
        (by_fid ∷ (codes "event_type", codes "EVENT_TYPE_ID_REGISTER") ∷ []) in
    let a = add_network config fid node casts in
    let b = add_storage a limits in
    let c = add_authority fid b events in
    let to_a = SameInfo-add_network config fid node casts.0 casts.1 in
    let (to_b, same_b) = SameInfo-add_storage a limits.0 limits.1 in
    let (to_c, same_c) = SameInfo-add_authority fid b events.0 events.1 in
    record {
      of_endpoint = to_c.3 ∙ to_b.3 ∙ to_a.3 ∙ at_endpoint;
      info_judged =
          InfoJudged-SameInfo config b c to_c
            (InfoJudged-SameInfo config a b to_b (InfoJudged-SameInfo config node a to_a judged));
      network_judged = NetworkJudged-SameNetwork config b c same_c (
          NetworkJudged-SameNetwork config a b same_b
            (NetworkJudged-add_network config fid node casts.0 casts.1 unknown));
      few_requests = omega (arith, to_a.4, to_b.4, to_c.4, one);
    }

module _ (config : PreflightConfig) (endpoint : Url) where
  alone :
      (node : NodeReport)
      → (node.network ≡ Compatibility.unknown)
        × (node.endpoint ≡ endpoint.text)
        × (length node.requests ≡ 1)
      → InfoJudged config node
      → Consistent config endpoint node
  alone node start judged = record {
    of_endpoint = start.1;
    info_judged = judged;
    network_judged = inl start.0;
    few_requests = omega (arith, start.2);
  }

pub inspect_node-Consistent :
    (web : Web) (config : PreflightConfig) (endpoint : Url)
    → Consistent config endpoint (inspect_node web config endpoint)
unfolding inspect_node
inspect_node-Consistent web config endpoint =
    let answer = request web config endpoint (codes "/v1/info") [] in
    either (add_info config (new_report endpoint) answer) config.test_fid
      (add_info-start config endpoint answer.0 answer.1)
      (add_info-InfoJudged config endpoint answer.0 answer.1)
  where
    either :
        (node : NodeReport) (test_fid : Option ℕ)
        → (node.network ≡ Compatibility.unknown)
          × (node.endpoint ≡ endpoint.text)
          × (length node.requests ≡ 1)
        → InfoJudged config node
        → Consistent config endpoint (elim test_fid [
          | none ↦ node
          | some fid ↦ if is_some node.info then inspect_fid web config endpoint node fid else node
        ])
    either node none start judged = alone config endpoint node start judged
    either node (some fid) start judged = elim (Bool-cases (is_some node.info)) [
      | inl e ↦
          rw e (inspect_fid-Consistent web config endpoint node fid start.0 start.1 start.2 judged)
      | inr e ↦ rw e (alone config endpoint node start judged)
    ]
