-- ===== src/Hypersnap/Node.antt =====
-- `inspect_node` of crates/psky-hypersnap/src/lib.rs: the requests to one endpoint.
pub mod Consistent
use psky.Prelude.{
  ℕ, Bool, false, Option, none, some, Bytes, bytes_ord, ◌=?◌, is_some, is_none, ok, err, [], ◌∷◌,
  ◌++◌, if◌then◌else◌,
}
use psky.Prelude.Text.{codes, decimal}
use psky.Json.{Value}
use psky.Url.{Url}
use psky.Hypersnap.Types.{
  same_network, malformed, Compatibility, compatible, incompatible, Freshness, RequestEvidence,
  PreflightConfig, NodeReport,
}
use psky.Hypersnap.Parse.{parse_info, from_info, parse_network, parse_storage}
use psky.Hypersnap.Authority.{parse_authority}
use psky.Hypersnap.Request.{Web, request}

abbrev pub supported_version : Bytes
supported_version = codes "0.13.5"

unfoldable pub compatible_if : Bool → Compatibility
compatible_if matches = if matches then compatible else incompatible

abbrev pub as_malformed : RequestEvidence → RequestEvidence
as_malformed evidence = record evidence { failure = some malformed }

-- `report.requests.push(evidence)`
abbrev pub with_request : NodeReport → RequestEvidence → NodeReport
with_request report evidence = record report { requests = report.requests ++ evidence ∷ [] }

abbrev pub new_report : Url → NodeReport
new_report endpoint = record {
  endpoint = endpoint.text;
  info = none;
  reachable = false;
  protocol = Compatibility.unknown;
  network = Compatibility.unknown;
  freshness = Freshness.unknown;
  peer_unique = none;
  healthy = false;
  observed_network = none;
  storage = none;
  authority = none;
  requests = [];
}

-- The four answers, each on the report so far.
unfoldable pub add_info : PreflightConfig → NodeReport → Option Value × RequestEvidence → NodeReport
unfolding compatible_if
add_info config report (answer, evidence) =
    let reached : NodeReport = record report { reachable = is_some evidence.status } in
    elim answer [
      | none ↦ with_request reached evidence
      | some value ↦ elim (parse_info value) [
        | none ↦ with_request reached (as_malformed evidence)
        | some info ↦
            with_request
              (record reached {
                protocol = compatible_if (info.version =? supported_version);
                freshness = from_info info config.max_block_delay_secs;
                info = some info;
              })
              evidence
      ]
    ]

unfoldable pub add_network :
    PreflightConfig → ℕ → NodeReport → Option Value × RequestEvidence → NodeReport
unfolding compatible_if
add_network config fid report (answer, evidence) = elim answer [
  | none ↦ with_request report evidence
  | some value ↦ elim (parse_network value fid) [
    | err _ ↦ with_request report (as_malformed evidence)
    | ok observed ↦ elim observed [
      | none ↦ with_request report evidence
      | some network ↦
          with_request
            (record report {
              observed_network = some network;
              network = compatible_if (same_network network config.expected_network);
            })
            evidence
    ]
  ]
]

unfoldable pub add_storage : NodeReport → Option Value × RequestEvidence → NodeReport
add_storage report (answer, evidence) = elim answer [
  | none ↦ with_request report evidence
  | some value ↦
      let storage = parse_storage value in
      with_request (record report { storage = storage })
        (if is_none storage then as_malformed evidence else evidence)
]

unfoldable pub add_authority : ℕ → NodeReport → Option Value × RequestEvidence → NodeReport
add_authority fid report (answer, evidence) = elim answer [
  | none ↦ with_request report evidence
  | some value ↦
      let authority = parse_authority value fid in
      with_request (record report { authority = authority })
        (if is_none authority then as_malformed evidence else evidence)
]

-- The requests about the account, in order.
unfoldable pub inspect_fid : Web → PreflightConfig → Url → NodeReport → ℕ → NodeReport
unfolding add_network add_storage add_authority
inspect_fid web config endpoint report fid =
    let by_fid : Bytes × Bytes = (codes "fid", decimal fid) in
    let casts =
      request web config endpoint (codes "/v1/castsByFid")
        (by_fid ∷ (codes "pageSize", codes "1") ∷ []) in
    let storage = request web config endpoint (codes "/v1/storageLimitsByFid") (by_fid ∷ []) in
    let events =
      request web config endpoint (codes "/v1/onChainEventsByFid")
        (by_fid ∷ (codes "event_type", codes "EVENT_TYPE_ID_REGISTER") ∷ []) in
    add_authority fid (add_storage (add_network config fid report casts) storage) events

unfoldable pub inspect_node : Web → PreflightConfig → Url → NodeReport
unfolding add_info inspect_fid
inspect_node web config endpoint =
    let report =
      add_info config (new_report endpoint) (request web config endpoint (codes "/v1/info") []) in
    elim config.test_fid [
      | none ↦ report
      | some fid ↦
          let inspected = inspect_fid web config endpoint report fid in
          if is_some report.info then inspected else report
    ]
