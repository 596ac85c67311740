-- ===== src/Hypersnap/Run.antt =====
-- `run` of crates/psky-hypersnap/src/lib.rs: the report on all endpoints.
pub mod Peers
pub mod Health
use psky.Prelude.{
  ℕ, suc, Bool, true, false, ◌&&◌, Option, none, some, Bytes, bytes_ord, map_or, List, [], ◌∷◌, map,
  ltb, ◌==◌, if◌then◌else◌, length, all,
}
use psky.Prelude.Sorted.{Map, get, insert, total}
use psky.Prelude.Text.{codes}
use psky.Hypersnap.Types.{is_compatible, is_fresh, PreflightConfig, NodeReport, PreflightReport}
use psky.Hypersnap.Request.{Web}
use psky.Hypersnap.Node.{inspect_node}

abbrev pub peer_of : NodeReport → Option Bytes
peer_of node = elim node.info [ none ↦ none | some info ↦ info.peer_id ]

abbrev pub Counts : Type 0
Counts = Map Bytes ℕ

-- `*peers.entry(peer_id.clone()).or_insert(0) += 1`
abbrev pub count_one : Option Bytes → Counts → Counts
count_one none peers = peers
count_one (some peer_id) peers = insert peer_id (suc (map_or 0 (λ n. n) (get peer_id peers))) peers

unfoldable pub count_peers : List NodeReport → Counts → Counts
count_peers [] peers = peers
count_peers (node ∷ nodes) peers = count_peers nodes (count_one (peer_of node) peers)

unfoldable pub peer_unique : Counts → Bool → Option Bytes → Option Bool
peer_unique peers all_peers_known none = none
peer_unique peers all_peers_known (some peer_id) =
    if map_or false (ltb 1) (get peer_id peers)
    then some false
    else if all_peers_known
    then some true
    else none

-- `node.peer_unique == Some(true)`
abbrev pub is_unique : Option Bool → Bool
is_unique none = false
is_unique (some b) = b

-- The loop that completes the reports.
unfoldable pub complete : Counts → Bool → NodeReport → NodeReport
unfolding peer_unique
complete peers all_peers_known node =
    let unique = peer_unique peers all_peers_known (peer_of node) in
    record node {
      peer_unique = unique;
      healthy =
          is_compatible node.protocol
          && is_compatible node.network
          && is_fresh node.freshness
          && is_unique unique;
    }

unfoldable pub limitations : List Bytes
limitations =
    codes "Node responses and message signatures are not independently verified."
    ∷ codes "Freshness uses reported timestamps; peer IDs do not prove independent operators."
    ∷ codes "Farcaster account authority is not verified; allocation is only node-reported."
    ∷ codes "Common chain history, ordering, finality, and complete replay remain unproved."
    ∷ codes "Arbitrary ATProto record storage and large-file byte storage remain unproved."
    ∷ []

-- The report from the nodes that were inspected.
unfoldable pub summarize : PreflightConfig → List NodeReport → PreflightReport
unfolding count_peers complete limitations
summarize config inspected =
    let peers = count_peers inspected [] in
    let all_peers_known = total (λ n. n) peers == length inspected in
    let nodes = map (complete peers all_peers_known) inspected in
    record {
      expected_network = config.expected_network;
      test_fid = config.test_fid;
      compatible =
          all (λ (node : NodeReport). is_compatible node.protocol && is_compatible node.network)
            inspected;
      healthy = all (λ (node : NodeReport). node.healthy) nodes;
      max_block_delay_seconds = config.max_block_delay_secs;
      distinct_peer_count = length peers;
      ready_for_reconstruction = false;
      nodes = nodes;
      limitations = limitations;
    }

unfoldable pub run : Web → PreflightConfig → PreflightReport
unfolding summarize inspect_node
run web config = summarize config (map (inspect_node web config) config.endpoints)
