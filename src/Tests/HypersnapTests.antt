-- ===== src/Tests/HypersnapTests.antt =====
-- Runs of the preflight against one node, which answers each route with a body that names it.
use psky.Prelude.{
  ℕ, ◌+◌, ◌≤◌, ◌≡◌, refl, ◌↔◌, Bool, true, false, Option, none, some, Bytes, bytes_ord, ◌=?◌, ok,
  List, [], ◌∷◌, map, arith, length, All, if◌then◌else◌,
}
use psky.Prelude.Int.{pos}
use psky.Prelude.Optional.{◌>>=◌}
use psky.Prelude.Distinct.{Distinct}
use psky.Prelude.Text.{codes}
use psky.Json.{Value, Values, Fields, field, Number, get, as_array}
use psky.Url.{Url, domain}
use psky.Http.{answered, chunk, end}
use psky.Hypersnap.Types.{
  PreflightConfig, mainnet, ShardInfo, NodeInfo, NodeReport, fresh, AuthorityObservation,
}
use psky.Hypersnap.Config.{new, with_limits, default_config, endpoints}
use psky.Hypersnap.Config.Valid.{made, IsValid, Built-IsValid}
use psky.Hypersnap.Parse.{parse_info, from_info}
use psky.Hypersnap.Parse.Shards.{AreNumbered, IsRecent, from_info-eq-fresh}
use psky.Hypersnap.Authority.{parse_authority}
use psky.Hypersnap.Authority.Latest.{Said}
use psky.Hypersnap.Authority.Custody.{AreSaid, IsCustody, parse_authority-IsCustody}
use psky.Hypersnap.Request.{Web, request}
use psky.Hypersnap.Request.Reading.{Carries, request-eq-some}
use psky.Hypersnap.Request.Evidence.{Witnesses, request-Witnesses}
use psky.Hypersnap.Run.{peer_of, run}
use psky.Hypersnap.Run.Health.{IsHealthy, run_healthy, run_bounded}

abbrev text : Bytes → Value
text s = Value.string s

abbrev number : ℕ → Value
number n = Value.number (Number.integer (pos n))

abbrev shard : ℕ → Value
shard id = Value.object (
    field (codes "shardId") (number id)
      (field (codes "maxHeight") (number 9) (field (codes "blockDelay") (number 2) Fields.end)))

abbrev info_value : Value
info_value = Value.object (
    field (codes "version") (text (codes "0.13.5")) (
      field (codes "numShards") (number 1) (
        field (codes "dbStats") (Value.object Fields.end) (
          field (codes "peer_id") (text (codes "p")) (
            field (codes "shardInfos")
              (Value.array (Values.cons (shard 1) (Values.cons (shard 0) Values.nil)))
              Fields.end)))))

abbrev shard_info : ℕ → ShardInfo
shard_info id = record {
  shard_id = id;
  max_height = 9;
  block_delay_seconds = 2;
  num_messages = none;
}

abbrev info : NodeInfo
info = record {
  version = codes "0.13.5";
  num_shards = 1;
  num_messages = none;
  peer_id = some (codes "p");
  shard_infos = shard_info 0 ∷ shard_info 1 ∷ [];
}

abbrev casts_value : Value
casts_value = Value.object (
    field (codes "messages")
      (Value.array (
        Values.cons
          (Value.object (
            field (codes "data")
              (Value.object
                (field (codes "fid") (number 5) (field (codes "network") (number 1) Fields.end)))
              Fields.end))
          Values.nil))
      Fields.end)

abbrev event : ℕ → Bytes → Value
event block address = Value.object (
    field (codes "fid") (number 5) (
      field (codes "idRegisterEventBody")
        (Value.object (
          field (codes "eventType") (text (codes "Register"))
            (field (codes "to") (text address) Fields.end)))
        (field (codes "blockNumber") (number block)
          (field (codes "txIndex") (number 0) (field (codes "logIndex") (number 0) Fields.end)))))

abbrev first_address : Bytes
first_address = codes "0x00000000000000000000000000000000000000aa"

abbrev second_address : Bytes
second_address = codes "0x00000000000000000000000000000000000000bb"

abbrev events_value : Value
events_value = Value.object (
    field (codes "events")
      (Value.array
        (Values.cons (event 8 second_address) (Values.cons (event 7 first_address) Values.nil)))
      Fields.end)

abbrev observed : AuthorityObservation
observed = record { registry_events = 2; reported_custody = some second_address; verified = false }

abbrev origin : Url
origin = record {
  scheme = codes "https";
  username = [];
  password = none;
  host = some (domain (codes "n"));
  host_str = some (codes "n");
  port = none;
  path = codes "/";
  query = none;
  fragment = none;
  text = codes "https://n/";
  authority = codes "n";
  query_pairs = [];
}

abbrev parse_origin : Bytes → Option Url
parse_origin input = some origin

abbrev config : PreflightConfig
config = default_config (origin ∷ []) mainnet (some 5)

abbrev web : Web
web = record {
  send = λ url route query. answered 200 none (chunk route end);
  from_slice = λ body.
      if body =? codes "/v1/info"
      then some info_value
      else if body =? codes "/v1/castsByFid"
      then some casts_value
      else if body =? codes "/v1/onChainEventsByFid"
      then some events_value
      else none;
}

Built-IsValid_example : IsValid config
unfolding new psky.Hypersnap.Config.loopback psky.Prelude.bytes_cmp
Built-IsValid_example =
    Built-IsValid parse_origin config (made (codes "https://n" ∷ []) mainnet (some 5) config refl)

from_info-eq-fresh_example : (from_info info 30 ≡ fresh) ↔ (
    (length info.shard_infos ≡ info.num_shards + 1)
    × AreNumbered 0 info.shard_infos
    × All (IsRecent 30) info.shard_infos)
unfolding as_array get parse_info psky.Json.as_object psky.Json.as_str psky.Json.as_u64
    psky.Prelude.Text.is_ascii_alphanumeric psky.Prelude.bytes_cmp
from_info-eq-fresh_example = from_info-eq-fresh info_value info 30 refl

parse_authority-IsCustody_example :
    (events : List Value) × (saids : List Said) × ((get (codes "events") events_value >>= as_array)
      ≡ some events)
    × (observed.registry_events ≡ length events)
    × (observed.verified ≡ false)
    × AreSaid 5 events saids
    × IsCustody saids observed.reported_custody
unfolding as_array get parse_authority psky.Json.as_str psky.Json.as_u64
    psky.Prelude.Text.is_ascii_hexdigit psky.Prelude.Text.strip_prefix psky.Prelude.bytes_cmp
parse_authority-IsCustody_example = parse_authority-IsCustody events_value 5 observed refl

request-eq-some_example :
    ((request web config origin (codes "/v1/info") []).0 ≡ some info_value)
    ↔ Carries web.from_slice config.max_response_bytes
        (web.send origin (codes "/v1/info") [])
        info_value
request-eq-some_example =
    request-eq-some web config origin (codes "/v1/info") [] info_value (omega arith)

request-Witnesses_example :
    Witnesses
      (codes "/v1/info")
      config.max_response_bytes
      (request web config origin (codes "/v1/info") [])
request-Witnesses_example = request-Witnesses web config origin (codes "/v1/info") [] (omega arith)

run_healthy_example :
    All (IsHealthy config) (run web config).nodes
    × Distinct peer_of (run web config).nodes
    × ((run web config).distinct_peer_count ≡ length config.endpoints)
unfolding as_array from_info get parse_info psky.Hypersnap.Parse.parse_network psky.Json.as_object
    psky.Json.as_str psky.Json.as_u64 psky.Prelude.Sorted.get psky.Prelude.Sorted.insert
    psky.Prelude.Text.is_ascii_alphanumeric psky.Prelude.bytes_cmp request run
run_healthy_example = run_healthy web config refl

run_bounded_example :
    (map (λ (node : NodeReport). node.endpoint) (run web config).nodes ≡ endpoints config)
    × All (λ node. length node.requests ≤ 4) (run web config).nodes
    × ((run web config).ready_for_reconstruction ≡ false)
run_bounded_example = run_bounded web config
