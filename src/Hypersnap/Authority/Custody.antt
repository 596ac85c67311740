-- ===== src/Hypersnap/Authority/Custody.antt =====
-- Which custody `parse_authority` of crates/psky-hypersnap/src/lib.rs reports, told from the answer's fields.
use psky.Prelude.{
  ℕ, ◌≡◌, ◌<◌, ap, ◌∙◌, ◌⊎◌, inl, inr, true, false, Bool-cases, not, or_false, ◌||◌, Option, none,
  some, Bytes, bytes_ord, ◌=?◌, =?_iff, List, [], ◌∷◌, ◌++◌, arith, ◌==◌, ==_iff, length, all, All,
  if◌then◌else◌,
}
use mathlib.Core.Path.{subst}
use psky.Prelude.Optional.{◌>>=◌, on_some, on_ensure, some-injective}
use psky.Prelude.Text.{codes, is_ascii_hexdigit, strip_prefix}
use psky.Json.{Value, get, as_str, as_u64, as_array}
use psky.Hypersnap.Types.{AuthorityObservation}
use psky.Hypersnap.Authority.{
  Position, is_later, address_valid, read_registration, read_event, parse_authority,
}
use psky.Hypersnap.Authority.Latest.{Said, AreRead, Occurs, NoLater, IsKept, parse_authority_latest}

-- A later block, or in the same one a later transaction, or in that a later log.
abbrev pub Later : Position → Position → Type 0
Later (block, transaction, log) (old_block, old_transaction, old_log) =
    (old_block < block)
    ⊎ ((block ≡ old_block)
        × ((old_transaction < transaction) ⊎ ((transaction ≡ old_transaction) × (old_log < log))))

-- `0x` and forty hexadecimal digits.
abbrev pub IsAddress : Bytes → Type 0
IsAddress address =
    (digits : Bytes) × (address ≡ codes "0x" ++ digits)
    × (length digits ≡ 40)
    × (all is_ascii_hexdigit digits ≡ true)

abbrev pub IsTransfer : Bytes → Type 0
IsTransfer kind = (kind ≡ codes "Register") ⊎ (kind ≡ codes "Transfer")

-- The new owner in a registration or a transfer, and where in the chain it stands; nothing for another kind.
abbrev pub Content : Value → Value → Bytes → Said → Type 0
Content event body kind none = ¬ IsTransfer kind
Content event body kind (some ((block, transaction, log), address)) =
    IsTransfer kind
    × ((get (codes "to") body >>= as_str) ≡ some address)
    × IsAddress address
    × ((get (codes "blockNumber") event >>= as_u64) ≡ some block)
    × ((get (codes "txIndex") event >>= as_u64) ≡ some transaction)
    × ((get (codes "logIndex") event >>= as_u64) ≡ some log)

-- What an event of this account says.
pub record IsSaid (fid : ℕ) (event : Value) (said : Said) : Type 0 where
  pub body : Value
  pub kind : Bytes
  pub is_owned : (get (codes "fid") event >>= as_u64) ≡ some fid
  pub is_body : get (codes "idRegisterEventBody") event ≡ some body
  pub is_kind : (get (codes "eventType") body >>= as_str) ≡ some kind
  pub content : Content event body kind said

abbrev pub AreSaid : ℕ → List Value → List Said → Type 0
AreSaid fid [] [] = Unit {0}
AreSaid fid (event ∷ events) (said ∷ saids) = IsSaid fid event said × AreSaid fid events saids
AreSaid fid [] (_ ∷ _) = ⊥
AreSaid fid (_ ∷ _) [] = ⊥

abbrev pub NotLater : Position → Said → Type 0
NotLater position none = Unit {0}
NotLater position (some (other, address)) = ¬ Later other position

-- The address of a registration or transfer than which none is later; none only where there is none.
abbrev pub IsCustody : List Said → Option Bytes → Type 0
IsCustody saids none = All (λ said. said ≡ none) saids
IsCustody saids (some address) =
    (position : Position) × Occurs (some (position, address)) saids × All (NotLater position) saids

is_later-Later : (a b : Position) → Later a b → is_later a b ≡ true
is_later-Later (a, a1, a2) (b, b1, b2) h = ground (arith, h)

address_valid-IsAddress : (address : Bytes) → address_valid address ≡ true → IsAddress address
unfolding address_valid strip_prefix
address_valid-IsAddress [] h = absurd (ground (arith, h))
address_valid-IsAddress (x ∷ []) h = absurd (ground (arith, h))
address_valid-IsAddress (x ∷ y ∷ digits) h =
    let first : x ≡ b'0' = ground (arith, h) in
    let second : y ≡ b'x' = ground (arith, h) in
    (
      digits,
      ap (λ c. c ∷ y ∷ digits) first ∙ ap (λ c. b'0' ∷ c ∷ digits) second,
      ground (arith, h),
      ground (arith, h),
    )

IsTransfer-of_kind :
    (kind : Bytes) → (kind =? codes "Register" || kind =? codes "Transfer") ≡ true → IsTransfer kind
IsTransfer-of_kind kind h = elim (Bool-cases (kind =? codes "Register")) [
  | inl register ↦ inl ((=?_iff kind (codes "Register")).0 register)
  | inr other ↦ inr ((=?_iff kind (codes "Transfer")).0 (rw other at h))
]

not-IsTransfer :
    (kind : Bytes)
    → (kind =? codes "Register" || kind =? codes "Transfer") ≡ false
    → ¬ IsTransfer kind
not-IsTransfer kind h (inl register) =
    cc ((=?_iff kind (codes "Register")).1 register, (or_false (kind =? codes "Register") _ h).0)
not-IsTransfer kind h (inr transfer) =
    cc ((=?_iff kind (codes "Transfer")).1 transfer, (or_false (kind =? codes "Register") _ h).1)

read_registration-Content :
    (event body : Value) (kind : Bytes) (said : Said)
    → IsTransfer kind
    → read_registration event body ≡ some said
    → Content event body kind said
unfolding read_registration
read_registration-Content event body kind said transfer h =
    on_some (get (codes "to") body) _ h λ to has_to h. on_some (as_str to) _ h λ address is_to h.
      on_ensure (address_valid address) _ h λ valid h.
        on_some (get (codes "blockNumber") event) _ h λ b has_block h.
          on_some (as_u64 b) _ h λ block is_block h.
            on_some (get (codes "txIndex") event) _ h λ t has_transaction h.
              on_some (as_u64 t) _ h λ transaction is_transaction h.
                on_some (get (codes "logIndex") event) _ h λ l has_log h.
                  on_some (as_u64 l) _ h λ log is_log h.
                    subst (Content event body kind) (some-injective h) (
                      transfer,
                      rw has_to is_to,
                      address_valid-IsAddress address valid,
                      rw has_block is_block,
                      rw has_transaction is_transaction,
                      rw has_log is_log,
                    )

read_event-IsSaid :
    (fid : ℕ) (event : Value) (said : Said)
    → read_event fid event ≡ some said
    → IsSaid fid event said
unfolding read_event
read_event-IsSaid fid event said h = on_some (get (codes "fid") event) _ h λ owner has_owner h.
    on_some (as_u64 owner) _ h λ number is_owner h. on_ensure (number == fid) _ h λ owned h.
      on_some (get (codes "idRegisterEventBody") event) _ h λ body is_body h.
        on_some (get (codes "eventType") body) _ h λ k has_kind h.
          on_some (as_str k) _ h λ kind is_kind h. record {
            body = body;
            kind = kind;
            is_owned = rw has_owner (is_owner ∙ ap (λ n. some n) ((==_iff number fid).0 owned));
            is_body = is_body;
            is_kind = rw has_kind is_kind;
            content = content body kind h;
          }
  where
    content :
        (body : Value) (kind : Bytes)
        → (if not (kind =? codes "Register" || kind =? codes "Transfer")
            then some none
            else read_registration event body)
          ≡ some said
        → Content event body kind said
    content body kind h = elim (Bool-cases (kind =? codes "Register" || kind =? codes "Transfer")) [
      | inl e ↦
          read_registration-Content event body kind said (IsTransfer-of_kind kind e) (rw e at h)
      | inr e ↦ subst (Content event body kind) (some-injective (rw e at h)) (not-IsTransfer kind e)
    ]

AreRead-AreSaid :
    (fid : ℕ) (events : List Value) (saids : List Said)
    → AreRead fid events saids
    → AreSaid fid events saids
AreRead-AreSaid fid [] [] h = tt
AreRead-AreSaid fid (event ∷ events) (said ∷ saids) h =
    (read_event-IsSaid fid event said h.0, AreRead-AreSaid fid events saids h.1)
AreRead-AreSaid fid [] (_ ∷ _) h = absurd h
AreRead-AreSaid fid (_ ∷ _) [] h = absurd h

not_later :
    (position : Position) (saids : List Said)
    → All (NoLater position) saids
    → All (NotLater position) saids
not_later position [] h = tt
not_later position (none ∷ saids) h = (tt, not_later position saids h.1)
not_later position (some (other, address) ∷ saids) h =
    ((λ later. cc (is_later-Later other position later, h.0)), not_later position saids h.1)

IsKept-IsCustody :
    (saids : List Said) (custody : Option Bytes) → IsKept saids custody → IsCustody saids custody
IsKept-IsCustody saids custody (none, e, kept) = subst (IsCustody saids) e kept
IsKept-IsCustody saids custody (some (position, address), e, kept) =
    subst (IsCustody saids) e (position, kept.0, not_later position saids kept.1)

-- An observation that was read counts the events and never claims to be verified. Every event names the
-- account as its own, and its registry event has a kind; a registration or a transfer has the address of
-- the new owner, `0x` and forty hexadecimal digits, and its block, transaction and log. The custody that is
-- reported is the address in one of these than which none is later, first by block, then by transaction,
-- then by log; none is reported only where there is no registration and no transfer.
pub parse_authority-IsCustody :
    (value : Value) (fid : ℕ) (observed : AuthorityObservation)
    → parse_authority value fid ≡ some observed
    → (events : List Value) × (saids : List Said) × ((get (codes "events") value >>= as_array)
        ≡ some events)
      × (observed.registry_events ≡ length events)
      × (observed.verified ≡ false)
      × AreSaid fid events saids
      × IsCustody saids observed.reported_custody
parse_authority-IsCustody value fid observed h =
    let (events, saids, found, counted, unverified, all_read, kept) =
      parse_authority_latest value fid observed h in
    (
      events,
      saids,
      found,
      counted,
      unverified,
      AreRead-AreSaid fid events saids all_read,
      IsKept-IsCustody saids observed.reported_custody kept,
    )
