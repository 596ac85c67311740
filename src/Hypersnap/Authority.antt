-- ===== src/Hypersnap/Authority.antt =====
-- `parse_authority` of crates/psky-hypersnap/src/lib.rs: the custody that the latest event reports.
pub mod Latest
pub mod Custody
use psky.Prelude.{
  ℕ, ◌≡◌, refl, ◌⊎◌, inl, inr, Bool, true, not, ◌&&◌, ◌||◌, Option, none, some, Bytes, bytes_ord,
  ◌=?◌, List, [], ◌∷◌, leb, ltb, ◌==◌, ==_iff, if◌then◌else◌, length, all, drop, arith, All,
  Bool-cases,
}
use psky.Prelude.Optional.{◌>>=◌, ◌>>◌, ensure, on_some, on_ensure, some-injective}
use psky.Prelude.Text.{codes, is_ascii_hexdigit, starts_with}
use psky.Json.{Value, get, as_str, as_u64, as_array}
use psky.Hypersnap.Types.{AuthorityObservation}

-- A block, the transaction in it and the log in that.
abbrev pub Position : Type 0
Position = ℕ × ℕ × ℕ

-- `position > previous` of tuples.
abbrev pub is_later : Position → Position → Bool
is_later (block, transaction, log) (old_block, old_transaction, old_log) =
    ltb old_block block
    || block == old_block
      && (ltb old_transaction transaction || transaction == old_transaction && ltb old_log log)

unfoldable pub address_valid : Bytes → Bool
address_valid address =
    length address == 42
    && starts_with (codes "0x") address
    && all is_ascii_hexdigit (drop 2 address)

-- What a registration or a transfer says.
unfoldable pub read_registration : Value → Value → Option (Option (Position × Bytes))
unfolding address_valid
read_registration event body = do
  address ← get (codes "to") body
  address ← as_str address
  ensure (address_valid address)
  block ← get (codes "blockNumber") event
  block ← as_u64 block
  transaction ← get (codes "txIndex") event
  transaction ← as_u64 transaction
  log ← get (codes "logIndex") event
  log ← as_u64 log
  some (some ((block, transaction, log), address))

-- What an event says; one that is no registration and no transfer says nothing.
unfoldable pub read_event : ℕ → Value → Option (Option (Position × Bytes))
unfolding read_registration
read_event fid event = do
  owner ← get (codes "fid") event
  owner ← as_u64 owner
  ensure (owner == fid)
  body ← get (codes "idRegisterEventBody") event
  kind ← get (codes "eventType") body
  kind ← as_str kind
  if not (kind =? codes "Register" || kind =? codes "Transfer")
      then some none
      else read_registration event body

-- What was read replaces an event that it is later than.
unfoldable pub keep_latest :
    Option (Position × Bytes) → Option (Position × Bytes) → Option (Position × Bytes)
keep_latest latest none = latest
keep_latest none (some said) = some said
keep_latest (some latest) (some said) = if is_later said.0 latest.0 then some said else some latest

unfoldable pub read_events :
    ℕ → List Value → Option (Position × Bytes) → Option (Option (Position × Bytes))
unfolding read_event keep_latest
read_events fid [] latest = some latest
read_events fid (event ∷ events) latest = do
  said ← read_event fid event
  read_events fid events (keep_latest latest said)

-- The address alone.
abbrev pub address_of : Option (Position × Bytes) → Option Bytes
address_of none = none
address_of (some (position, address)) = some address

abbrev pub observation : List Value → Option (Position × Bytes) → AuthorityObservation
observation events latest = record {
  registry_events = length events;
  reported_custody = address_of latest;
  verified = Bool.false;
}

unfoldable pub parse_authority : Value → ℕ → Option AuthorityObservation
unfolding read_events
parse_authority value fid = do
  events ← get (codes "events") value
  events ← as_array events
  ensure (leb (length events) 1024)
  latest ← read_events fid events none
  some (observation events latest)
