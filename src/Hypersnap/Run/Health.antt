-- ===== src/Hypersnap/Run/Health.antt =====
-- What a healthy report stands for, and what every report says.
use psky.Prelude.{
  ◌+◌, ◌≤◌, ◌≡◌, refl, sym, ap, ◌∙◌, inl, inr, Bool, true, false, length-map, and_true, ◌&&◌,
  Option, none, some, Bytes, bytes_ord, =?_iff, List, [], ◌∷◌, map, arith, length, All, all, ◌==◌,
}
use psky.Prelude.Sorted.{get, total}
use psky.Prelude.Distinct.{Distinct, Distinct-map, All-map, All-mapped, All-zip, All-of_every}
use psky.Url.{Url}
use psky.Hypersnap.Types.{
  Network, same_network, mainnet, testnet, devnet, is_compatible, Freshness, fresh, is_fresh,
  NodeInfo, NodeReport, PreflightConfig,
}
use psky.Hypersnap.Config.{endpoints}
use psky.Hypersnap.Parse.Shards.{AreNumbered, IsRecent, from_info-eq-fresh}
use psky.Hypersnap.Request.{Web}
use psky.Hypersnap.Node.{supported_version, compatible_if, inspect_node}
use psky.Hypersnap.Node.Consistent.{NetworkJudged, Consistent, inspect_node-Consistent}
use psky.Hypersnap.Run.{
  Counts, peer_of, count_peers, peer_unique, is_unique, complete, summarize, run,
}
use psky.Hypersnap.Run.Peers.{
  count_of, count_of-count_peers, IsAlone, IsAlone-Distinct, length-count_peers,
}

-- A node that reports the version and the network that are asked for, and every shard with a recent block.
pub record IsHealthy (config : PreflightConfig) (node : NodeReport) : Type 0 where
  pub info : NodeInfo
  pub has_info : node.info ≡ some info
  pub version : info.version ≡ supported_version
  pub network : node.observed_network ≡ some config.expected_network
  pub all_shards : length info.shard_infos ≡ info.num_shards + 1
  pub numbered : AreNumbered 0 info.shard_infos
  pub recent : All (IsRecent config.max_block_delay_secs) info.shard_infos

same_network_sound : (a b : Network) → same_network a b ≡ true → a ≡ b
same_network_sound mainnet mainnet h = refl
same_network_sound mainnet testnet h = cc
same_network_sound mainnet devnet h = cc
same_network_sound testnet mainnet h = cc
same_network_sound testnet testnet h = refl
same_network_sound testnet devnet h = cc
same_network_sound devnet mainnet h = cc
same_network_sound devnet testnet h = cc
same_network_sound devnet devnet h = refl

compatible_if_sound : (b : Bool) → is_compatible (compatible_if b) ≡ true → b ≡ true
unfolding compatible_if
compatible_if_sound true h = refl
compatible_if_sound false h = cc

fresh_of_is_fresh : (f : Freshness) → is_fresh f ≡ true → f ≡ fresh
fresh_of_is_fresh Freshness.fresh h = refl
fresh_of_is_fresh Freshness.lagging h = cc
fresh_of_is_fresh Freshness.unknown h = cc

peer_unique_sound :
    (peers : Counts) (known : Bool) (reported : Option Bytes)
    → is_unique (peer_unique peers known reported) ≡ true
    → (peer : Bytes) × (reported ≡ some peer) × (count_of peer peers ≤ 1)
unfolding peer_unique
peer_unique_sound peers known none h = absurd (cc)
peer_unique_sound peers known (some peer) h = (peer, refl, ground (arith, h))

module _ (config : PreflightConfig) where
  judged_sound :
      (endpoint : Url) (node : NodeReport)
      → Consistent config endpoint node
      → is_compatible node.protocol ≡ true
      → is_compatible node.network ≡ true
      → is_fresh node.freshness ≡ true
      → IsHealthy config node
  judged_sound endpoint node consistent protocol network freshness = elim consistent.info_judged [
    | inr (_, unknown) ↦ absurd (cc (protocol, unknown))
    | inl (info, judged) ↦
        let recent = sym judged.freshness ∙ fresh_of_is_fresh node.freshness freshness in
        let (all_shards, numbered, recent) =
          (from_info-eq-fresh judged.value info config.max_block_delay_secs judged.parsed).0
            recent in
        record {
          info = info;
          has_info = judged.has_info;
          version =
              (=?_iff info.version supported_version).0
                (compatible_if_sound _ (sym (ap is_compatible judged.protocol) ∙ protocol));
          network = on_network consistent.network_judged;
          all_shards = all_shards;
          numbered = numbered;
          recent = recent;
        }
  ]
    where
      on_network : NetworkJudged config node → node.observed_network ≡ some config.expected_network
      on_network (inl unknown) = absurd (cc (network, unknown))
      on_network (inr (observed, seen, judged)) =
          seen
          ∙ ap (λ n. some n)
              (same_network_sound observed config.expected_network
                (compatible_if_sound _ (sym (ap is_compatible judged) ∙ network)))

  -- A node whose completed report is healthy.
  complete_sound :
      (inspected : List NodeReport) (known : Bool) (node : NodeReport)
      → ((endpoint : Url) × Consistent config endpoint node)
      → (complete (count_peers inspected []) known node).healthy ≡ true
      → IsHealthy config (complete (count_peers inspected []) known node) × IsAlone inspected node
  unfolding complete
  complete_sound inspected known node (endpoint, consistent) h =
      let peers = count_peers inspected [] in
      let alone = is_unique (peer_unique peers known (peer_of node)) in
      let both = is_compatible node.protocol && is_compatible node.network in
      let (rest, unique) = and_true (both && is_fresh node.freshness) alone h in
      let (rest, freshness) = and_true both (is_fresh node.freshness) rest in
      let (protocol, network) =
        and_true (is_compatible node.protocol) (is_compatible node.network) rest in
      let good = judged_sound endpoint node consistent protocol network freshness in
      let (peer, reported, once) = peer_unique_sound peers known (peer_of node) unique in
      (
        record {
          info = good.info;
          has_info = good.has_info;
          version = good.version;
          network = good.network;
          all_shards = good.all_shards;
          numbered = good.numbered;
          recent = good.recent;
        },
        (peer, reported, omega (arith, once, count_of-count_peers peer inspected [])),
      )

  peer_of-complete :
      (peers : Counts) (known : Bool) (node : NodeReport)
      → peer_of (complete peers known node) ≡ peer_of node
  unfolding complete
  peer_of-complete peers known node = refl

-- If the report on all endpoints is healthy, then every node reported the version and the network that
-- are asked for and all its shards, each with a recent block, the nodes reported pairwise distinct peers,
-- and the number of distinct peers is that of the endpoints.
pub run_healthy :
    (web : Web) (config : PreflightConfig)
    → (run web config).healthy ≡ true
    → All (IsHealthy config) (run web config).nodes
      × Distinct peer_of (run web config).nodes
      × ((run web config).distinct_peer_count ≡ length config.endpoints)
unfolding run summarize get
run_healthy web config h =
    let inspected = map (inspect_node web config) config.endpoints in
    let peers = count_peers inspected [] in
    let known = total (λ n. n) peers == length inspected in
    let consistent : All (λ node. (endpoint : Url) × Consistent config endpoint node) inspected =
      All-mapped (λ node. (endpoint : Url) × Consistent config endpoint node)
        (inspect_node web config) config.endpoints
        (All-of_every
          (λ url. (endpoint : Url) × Consistent config endpoint (inspect_node web config url))
          (λ url. (url, inspect_node-Consistent web config url)) config.endpoints) in
    let sound =
      All-zip (complete_sound config inspected known) inspected consistent
        (healthy_before peers known inspected h) in
    let alone = All-map (λ node s. s.1) inspected sound in
    let distinct = IsAlone-Distinct inspected alone in
    (
      All-mapped (IsHealthy config) (complete peers known) inspected
          (All-map (λ node s. s.0) inspected sound),
      Distinct-map peer_of (complete peers known) inspected (peer_of-complete config peers known)
          distinct,
      omega (
        arith,
        length-count_peers inspected [] tt (All-map (λ node a. (a.0, a.1, refl)) inspected alone)
            distinct,
        length-map (inspect_node web config) config.endpoints,
      ),
    )
  where
    healthy_before :
        (peers : Counts) (known : Bool) (nodes : List NodeReport)
        → all (λ (node : NodeReport). node.healthy) (map (complete peers known) nodes) ≡ true
        → All (λ node. (complete peers known node).healthy ≡ true) nodes
    healthy_before peers known [] h = tt
    healthy_before peers known (node ∷ nodes) h =
        let (here, there) = and_true (complete peers known node).healthy _ h in
        (here, healthy_before peers known nodes there)

-- Every report, whatever the nodes answer, names the endpoints in the order of the configuration, takes
-- at most four requests for each of them, and never claims to be ready for reconstruction.
pub run_bounded :
    (web : Web) (config : PreflightConfig)
    → (map (λ (node : NodeReport). node.endpoint) (run web config).nodes ≡ endpoints config)
      × All (λ node. length node.requests ≤ 4) (run web config).nodes
      × ((run web config).ready_for_reconstruction ≡ false)
unfolding run summarize complete endpoints
run_bounded web config = (names config.endpoints, few config.endpoints, refl)
  where
    finish : NodeReport → NodeReport
    finish = complete (count_peers (map (inspect_node web config) config.endpoints) []) (
        total (λ n. n) (count_peers (map (inspect_node web config) config.endpoints) [])
        == length (map (inspect_node web config) config.endpoints))

    names :
        (urls : List Url)
        → map
            (λ (node : NodeReport). node.endpoint)
            (map finish (map (inspect_node web config) urls))
          ≡ map (λ (url : Url). url.text) urls
    names [] = refl
    names (url ∷ urls) = rw ((inspect_node-Consistent web config url).of_endpoint, names urls) refl

    few :
        (urls : List Url)
        → All (λ node. length node.requests ≤ 4) (map finish (map (inspect_node web config) urls))
    few [] = tt
    few (url ∷ urls) = ((inspect_node-Consistent web config url).few_requests, few urls)
