-- ===== src/Hypersnap/Run/Peers.antt =====
-- What the counting of the peers tells.
use psky.Prelude.{
  ℕ, suc, ◌+◌, ◌≤◌, ◌≡◌, ◌≢◌, refl, sym, ap, ◌∙◌, inl, inr, Bool, false, Bool-cases, Option, none,
  some, Bytes, bytes_ord, ◌=?◌, =?_iff, =?_refl, map_or, List, [], ◌∷◌, arith, length, All,
  if◌then◌else◌,
}
use psky.Prelude.Sorted.{get, insert, get-insert, length-insert, IsSorted, IsSorted-insert}
use psky.Prelude.Distinct.{Distinct, All-map, All-zip}
use psky.Hypersnap.Types.{NodeReport}
use psky.Hypersnap.Run.{Counts, peer_of, count_one, count_peers}

abbrev is_peer : Bytes → Option Bytes → Bool
is_peer peer none = false
is_peer peer (some other) = other =? peer

-- How many nodes report a peer.
unfoldable pub occurrences : Bytes → List NodeReport → ℕ
occurrences peer [] = 0
occurrences peer (node ∷ nodes) =
    let rest = occurrences peer nodes in if is_peer peer (peer_of node) then suc rest else rest

abbrev pub count_of : Bytes → Counts → ℕ
count_of peer peers = map_or 0 (λ n. n) (get peer peers)

count_of-count_one :
    (peer : Bytes) (reported : Option Bytes) (peers : Counts)
    → count_of peer (count_one reported peers)
      ≡ (if is_peer peer reported then suc (count_of peer peers) else count_of peer peers)
count_of-count_one peer none peers = refl
count_of-count_one peer (some other) peers =
    ground (arith, get-insert other peer (suc (count_of other peers)) peers, =?_iff other peer)

-- A count is that of the nodes that report the peer.
pub count_of-count_peers :
    (peer : Bytes) (nodes : List NodeReport) (peers : Counts)
    → count_of peer (count_peers nodes peers) ≡ count_of peer peers + occurrences peer nodes
unfolding count_peers occurrences
count_of-count_peers peer [] peers = omega arith
count_of-count_peers peer (node ∷ nodes) peers = ground (
  arith,
  count_of-count_peers peer nodes (count_one (peer_of node) peers),
  count_of-count_one peer (peer_of node) peers,
)

-- A node that reports a peer that no more than one node reports.
abbrev pub IsAlone : List NodeReport → NodeReport → Type 0
IsAlone nodes node = (peer : Bytes) × (peer_of node ≡ some peer) × (occurrences peer nodes ≤ 1)

apart_of_occurrences :
    (peer : Bytes) (nodes : List NodeReport)
    → occurrences peer nodes ≡ 0
    → All (λ other. some peer ≢ peer_of other) nodes
unfolding occurrences
apart_of_occurrences peer [] h = tt
apart_of_occurrences peer (node ∷ nodes) h = elim (Bool-cases (is_peer peer (peer_of node))) [
  | inl e ↦ absurd (ground (arith, e, h))
  | inr e ↦ (
    λ same. absurd (cc (ap (is_peer peer) same, =?_refl peer, e)),
    apart_of_occurrences peer nodes (rw e at h),
  )
]

occurrences_tail :
    (peer : Bytes) (node : NodeReport) (nodes : List NodeReport)
    → occurrences peer nodes ≤ occurrences peer (node ∷ nodes)
unfolding occurrences
occurrences_tail peer node nodes = ground arith

occurrences_head :
    (peer : Bytes) (node : NodeReport) (nodes : List NodeReport)
    → peer_of node ≡ some peer
    → occurrences peer (node ∷ nodes) ≡ suc (occurrences peer nodes)
unfolding occurrences
occurrences_head peer node nodes e = rw (e, =?_refl peer) refl

-- Where every node is alone, the peers are distinct.
pub IsAlone-Distinct :
    (nodes : List NodeReport) → All (IsAlone nodes) nodes → Distinct peer_of nodes
IsAlone-Distinct [] h = tt
IsAlone-Distinct (node ∷ nodes) h =
    let (peer, reported, once) = h.0 in
    let none_else =
      apart_of_occurrences peer nodes
        (omega (arith, occurrences_head peer node nodes reported, once)) in
    (
      All-map (λ other apart same. apart (sym reported ∙ same)) nodes none_else,
      IsAlone-Distinct nodes (All-map (shorter node nodes) nodes h.1),
    )
  where
    shorter :
        (node : NodeReport) (nodes : List NodeReport) (other : NodeReport)
        → IsAlone (node ∷ nodes) other
        → IsAlone nodes other
    shorter node nodes other (p, e, le) = (p, e, omega (arith, occurrences_tail p node nodes, le))

-- A node whose peer was not counted yet.
abbrev IsNew : Counts → NodeReport → Type 0
IsNew peers node = (peer : Bytes) × (peer_of node ≡ some peer) × (get peer peers ≡ none)

-- Distinct peers are counted one by one.
pub length-count_peers :
    (nodes : List NodeReport) (peers : Counts)
    → IsSorted peers
    → All (IsNew peers) nodes
    → Distinct peer_of nodes
    → length (count_peers nodes peers) ≡ length peers + length nodes
unfolding count_peers
length-count_peers [] peers sorted new distinct = omega arith
length-count_peers (node ∷ nodes) peers sorted new distinct =
    let (peer, reported, unseen) = new.0 in
    let counted = insert peer (suc (count_of peer peers)) peers in
    let longer : length counted ≡ suc (length peers) =
      length-insert peer (suc (count_of peer peers)) peers sorted ∙ rw unseen refl in
    rw reported (
      omega (
        arith,
        longer,
        length-count_peers nodes counted
            (IsSorted-insert peer (suc (count_of peer peers)) peers sorted)
            (All-zip (still_new peer (suc (count_of peer peers)) peers node reported) nodes new.1
              distinct.0)
            distinct.1,
      ))
  where
    still_new :
        (peer : Bytes) (n : ℕ) (peers : Counts) (node : NodeReport)
        → peer_of node ≡ some peer
        → (other : NodeReport) → IsNew peers other
        → peer_of node ≢ peer_of other
        → IsNew (insert peer n peers) other
    still_new peer n peers node reported other (q, e, unseen) apart =
        (q, e, get-insert peer q n peers ∙ rw (differs, unseen) refl)
      where
        differs : (peer =? q) ≡ false
        differs = elim (Bool-cases (peer =? q)) [
          | inl same ↦ absurd (apart (reported ∙ ap (λ x. some x) ((=?_iff peer q).0 same) ∙ sym e))
          | inr d ↦ d
        ]
