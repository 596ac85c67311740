-- ===== src/Hypersnap/Parse/Shards.antt =====
-- Which shards a node information covers.
use psky.Prelude.{
  ℕ, suc, ◌+◌, ◌^◌, ◌≤◌, ◌<◌, ◌≡◌, ◌≢◌, ◌↔◌, refl, ap, Bool, true, false, Bool-cases, not, ◌||◌,
  ◌&&◌, inl, inr, Option, none, some, List, [], ◌∷◌, ◌++◌, arith, length, length-append, All,
  All-append, any, or_false, and_true, not-true, leb, leb→le, ltb, ltb→lt, ◌==◌, ==_iff,
  if◌then◌else◌,
}
use mathlib.Core.Path.{subst}
use psky.Prelude.Optional.{on_some, on_ensure, some-injective}
use psky.Prelude.Distinct.{All-map, All-of_any, Distinct, Distinct-snoc}
use psky.Json.{Value, get, get_field, as_u64, as_str, as_array, as_object}
use psky.Prelude.Text.{codes}
use psky.Hypersnap.Types.{ShardInfo, NodeInfo, Freshness, lagging, fresh}
use psky.Hypersnap.Parse.{
  parse_shard, parse_shards, insert_shard, saturating_add, sort_shards, parse_shard_infos,
  version_valid, optional, parse_peer, parse_info, from_info,
}

abbrev id_of : ShardInfo → ℕ
id_of info = info.shard_id

-- In ascending order, from `a` on.
abbrev Ascending : ℕ → List ShardInfo → Type 0
Ascending a [] = Unit {0}
Ascending a (info ∷ infos) = (a ≤ info.shard_id) × Ascending (suc info.shard_id) infos

Ascending-weaken :
    (a b : ℕ) (infos : List ShardInfo) → a ≤ b → Ascending b infos → Ascending a infos
Ascending-weaken a b [] le h = tt
Ascending-weaken a b (info ∷ infos) le h = (omega (arith, le, h.0), h.1)

-- Sorting keeps what holds of every element, the length, and puts distinct keys in order.
module _ {κ} (P : ShardInfo → Type κ) where
  All-insert_shard :
      (s : ShardInfo) (infos : List ShardInfo) → P s → All P infos → All P (insert_shard s infos)
  unfolding insert_shard
  All-insert_shard s [] p h = (p, tt)
  All-insert_shard s (o ∷ infos) p h = elim (Bool-cases (ltb s.shard_id o.shard_id)) [
    | inl e ↦ rw e (p, h)
    | inr e ↦ rw e (h.0, All-insert_shard s infos p h.1)
  ]

  All-sort_shards : (infos : List ShardInfo) → All P infos → All P (sort_shards infos)
  unfolding sort_shards
  All-sort_shards [] h = tt
  All-sort_shards (s ∷ infos) h =
      All-insert_shard s (sort_shards infos) h.0 (All-sort_shards infos h.1)

Ascending-insert_shard :
    (a : ℕ) (s : ShardInfo) (infos : List ShardInfo)
    → a ≤ s.shard_id
    → All (λ o. s.shard_id ≢ o.shard_id) infos
    → Ascending a infos
    → Ascending a (insert_shard s infos)
unfolding insert_shard
Ascending-insert_shard a s [] le apart h = (le, tt)
Ascending-insert_shard a s (o ∷ infos) le apart h = elim (Bool-cases (ltb s.shard_id o.shard_id)) [
  | inl e ↦ rw e (le, (ltb→lt s.shard_id o.shard_id e, h.1))
  | inr e ↦ rw e (
    h.0,
    Ascending-insert_shard (suc o.shard_id) s infos (ground (arith, e, apart.0)) apart.1 h.1,
  )
]

Ascending-sort_shards :
    (infos : List ShardInfo) → Distinct id_of infos → Ascending 0 (sort_shards infos)
unfolding sort_shards
Ascending-sort_shards [] h = tt
Ascending-sort_shards (s ∷ infos) h =
    Ascending-insert_shard 0 s (sort_shards infos) (omega arith)
      (All-sort_shards (λ o. s.shard_id ≢ o.shard_id) infos h.0) (Ascending-sort_shards infos h.1)

-- Each shard is numbered by its place, from `a` on.
abbrev pub AreNumbered : ℕ → List ShardInfo → Type 0
AreNumbered a [] = Unit {0}
AreNumbered a (info ∷ infos) = (info.shard_id ≡ a) × AreNumbered (suc a) infos

-- Ascending numbers cannot skip one when there are as many as fit.
length_le_of_Ascending :
    (a n : ℕ) (infos : List ShardInfo)
    → Ascending a infos
    → All (λ o. o.shard_id ≤ n) infos
    → a ≤ suc n
    → a + length infos ≤ suc n
length_le_of_Ascending a n [] h within le = omega (arith, le)
length_le_of_Ascending a n (info ∷ infos) h within le = omega (
  arith,
  h.0,
  length_le_of_Ascending (suc info.shard_id) n infos h.1 within.1 (omega (arith, within.0)),
)

Ascending-AreNumbered :
    (a n : ℕ) (infos : List ShardInfo)
    → Ascending a infos
    → All (λ o. o.shard_id ≤ n) infos
    → a + length infos ≡ suc n
    → AreNumbered a infos
Ascending-AreNumbered a n [] h within size = tt
Ascending-AreNumbered a n (info ∷ infos) h within size =
    let room =
      length_le_of_Ascending (suc info.shard_id) n infos h.1 within.1 (omega (arith, within.0)) in
    let here : info.shard_id ≡ a = omega (arith, h.0, size, room) in
    (
      here,
      Ascending-AreNumbered (suc a) n infos (subst (λ i. Ascending (suc i) infos) here h.1) within.1
          (omega (arith, size)),
    )

length-insert_shard :
    (s : ShardInfo) (infos : List ShardInfo) → length (insert_shard s infos) ≡ suc (length infos)
unfolding insert_shard
length-insert_shard s [] = refl
length-insert_shard s (o ∷ infos) = ground (arith, length-insert_shard s infos)

length-sort_shards : (infos : List ShardInfo) → length (sort_shards infos) ≡ length infos
unfolding sort_shards
length-sort_shards [] = refl
length-sort_shards (s ∷ infos) =
    omega (arith, length-insert_shard s (sort_shards infos), length-sort_shards infos)

parse_shard_sound :
    (n : ℕ) (infos : List ShardInfo) (value : Value) (s : ShardInfo)
    → parse_shard n infos value ≡ some s
    → (s.shard_id ≤ n) × All (λ o. o.shard_id ≢ s.shard_id) infos
unfolding parse_shard
parse_shard_sound n infos value s h = on_some (get (codes "shardId") value) _ h λ id_value _ h.
    on_some (as_u64 id_value) _ h λ id _ h. on_ensure (ltb id (2 ^ 32)) _ h λ small h.
      on_ensure (leb id n && not (any (λ (o : ShardInfo). o.shard_id == id) infos)) _ h λ checked h.
        on_some (get (codes "maxHeight") value) _ h λ height_value _ h.
          on_some (as_u64 height_value) _ h λ height _ h.
            on_some (get (codes "blockDelay") value) _ h λ delay_value _ h.
              on_some (as_u64 delay_value) _ h λ delay _ h.
                on_some (optional as_u64 (get (codes "numMessages") value)) _ h λ count _ h.
                  let same : id ≡ s.shard_id = ap id_of (some-injective h) in
                  let (within, unseen) = and_true _ _ checked in
                  let apart =
                    All-map (λ o e equal. absurd (cc (e, (==_iff o.shard_id id).1 equal))) infos
                      (All-of_any _ infos (not-true _ unseen)) in
                  subst (λ i. (i ≤ n) × All (λ o. o.shard_id ≢ i) infos) same
                    (leb→le id n within, apart)

parse_shards_sound :
    (n : ℕ) (values : List Value) (infos result : List ShardInfo)
    → parse_shards n values infos ≡ some result
    → All (λ s. s.shard_id ≤ n) infos
    → Distinct id_of infos
    → All (λ s. s.shard_id ≤ n) result
      × Distinct id_of result
      × (length result ≡ length infos + length values)
unfolding parse_shards
parse_shards_sound n [] infos result h within distinct =
    subst
      (λ r.
        All (λ (s : ShardInfo). s.shard_id ≤ n) r
        × Distinct id_of r
        × (length r ≡ length infos + 0))
      (some-injective h) (within, distinct, omega arith)
parse_shards_sound n (value ∷ values) infos result h within distinct =
    on_some (parse_shard n infos value) _ h λ s read h.
      let (small, apart) = parse_shard_sound n infos value s read in
      let (bounded, separate, size) =
        parse_shards_sound n values (infos ++ s ∷ []) result h
          (All-append (λ (o : ShardInfo). o.shard_id ≤ n) infos (s ∷ []) within (small, tt))
          (Distinct-snoc id_of infos s apart distinct) in
      (bounded, separate, omega (arith, size, length-append infos (s ∷ [])))

-- What the parser guarantees of the shards of `n` data shards: few, in range, and in ascending order.
abbrev Listed : ℕ → List ShardInfo → Type 0
Listed n infos = All (λ s. s.shard_id ≤ n) infos × Ascending 0 infos × (length infos ≤ 256)

parse_shard_infos-Listed :
    (n : ℕ) (value : Option Value) (infos : List ShardInfo)
    → parse_shard_infos n value ≡ some infos
    → Listed n infos
unfolding parse_shard_infos
parse_shard_infos-Listed n none infos h = subst (Listed n) (some-injective h) (tt, tt, omega arith)
parse_shard_infos-Listed n (some value) infos h = on_some (as_array value) _ h λ values _ h.
    on_ensure (leb (length values) 256) _ h λ few h.
      on_some (parse_shards n values []) _ h λ read parsed h.
        let (within, distinct, size) = parse_shards_sound n values [] read parsed tt tt in
        subst (Listed n) (some-injective h) (
          All-sort_shards (λ s. s.shard_id ≤ n) read within,
          Ascending-sort_shards read distinct,
          omega (arith, size, length-sort_shards read, leb→le (length values) 256 few),
        )

parse_info-Listed :
    (value : Value) (info : NodeInfo)
    → parse_info value ≡ some info
    → Listed info.num_shards info.shard_infos
unfolding parse_info
parse_info-Listed value info h = on_some (get (codes "version") value) _ h λ version_value _ h.
    on_some (as_str version_value) _ h λ version _ h. on_ensure (version_valid version) _ h λ _ h.
      on_some (get (codes "numShards") value) _ h λ shards _ h. on_some (as_u64 shards) _ h λ n _ h.
        on_ensure (not (n == 0)) _ h λ _ h.
          on_some (get (codes "dbStats") value) _ h λ stats_value _ h.
            on_some (as_object stats_value) _ h λ stats _ h.
              on_some (optional as_u64 (get_field (codes "numMessages") stats)) _ h λ count _ h.
                on_some (optional parse_peer (get (codes "peer_id") value)) _ h λ peer _ h.
                  on_some (parse_shard_infos n (get (codes "shardInfos") value)) _ h λ infos read h.
                    subst (λ (i : NodeInfo). Listed i.num_shards i.shard_infos) (some-injective h)
                      (parse_shard_infos-Listed n (get (codes "shardInfos") value) infos read)

-- A shard with a block that is recent enough.
abbrev pub IsRecent : ℕ → ShardInfo → Type 0
IsRecent delay s = (0 < s.max_height) × (s.block_delay_seconds ≤ delay)

abbrev is_late : ℕ → ShardInfo → Bool
is_late delay s = ltb delay s.block_delay_seconds

abbrev is_empty : ShardInfo → Bool
is_empty s = s.max_height == 0

All-IsRecent :
    (delay : ℕ) (infos : List ShardInfo)
    → (any (is_late delay) infos ≡ false) × (any is_empty infos ≡ false)
      ↔ All (IsRecent delay) infos
All-IsRecent delay [] = (λ h. tt, λ h. (refl, refl))
All-IsRecent delay (s ∷ infos) =
    let (forth, back) = All-IsRecent delay infos in
    (
      λ (late, empty).
          let (on_time, later) = or_false (is_late delay s) _ late in
          let (filled, fuller) = or_false (is_empty s) _ empty in
          ((ground (arith, filled), ground (arith, on_time)), forth (later, fuller)),
      λ (recent, rest).
          let (late, empty) = back rest in
          (ground (arith, recent.1, late), ground (arith, recent.0, empty)),
    )

-- The two tests of `from_info`, in order.
freshness_iff :
    (late full empty : Bool)
    → ((if late then lagging else if not full || empty then Freshness.unknown else fresh) ≡ fresh)
      ↔ ((late ≡ false) × (full ≡ true) × (empty ≡ false))
freshness_iff true full empty = (λ h. absurd (cc), λ h. absurd (cc))
freshness_iff false true true = (λ h. absurd (cc), λ h. absurd (cc))
freshness_iff false true false = (λ h. (refl, refl, refl), λ h. refl)
freshness_iff false false empty = (λ h. absurd (cc), λ h. absurd (cc))

-- A node information that was read is fresh exactly when the shards it lists are those numbered from 0
-- to the number of data shards, one by one, each with a block and with a delay within the threshold.
pub from_info-eq-fresh :
    (value : Value) (info : NodeInfo) (delay : ℕ)
    → parse_info value ≡ some info
    → (from_info info delay ≡ fresh) ↔ (
        (length info.shard_infos ≡ info.num_shards + 1)
        × AreNumbered 0 info.shard_infos
        × All (IsRecent delay) info.shard_infos)
unfolding from_info
from_info-eq-fresh value info delay parsed =
    let (within, ascending, few) = parse_info-Listed value info parsed in
    let (forth, back) = All-IsRecent delay info.shard_infos in
    let full = length info.shard_infos == saturating_add info.num_shards 1 in
    let (passed, enough) =
      freshness_iff (any (is_late delay) info.shard_infos) full (any is_empty info.shard_infos) in
    (
      λ h.
          let (late, size, empty) = passed h in
          let exact : length info.shard_infos ≡ info.num_shards + 1 = ground (arith, few, size) in
          (
            exact,
            Ascending-AreNumbered 0 info.num_shards info.shard_infos ascending within
                (omega (arith, exact)),
            forth (late, empty),
          ),
      λ (exact, numbered, recent).
          let (late, empty) = back recent in enough (late, ground (arith, few, exact), empty),
    )
