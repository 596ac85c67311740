-- ===== src/Repo/Syntax.antt =====
-- crates/psky-repo/src/syntax.rs: the syntax of record paths, DIDs and revisions.

pub mod Paths
use psky.Prelude.{
  ℕ, List, [], ◌∷◌, Bool, false, not, ◌&&◌, ◌||◌, none, some, Bytes, Result, ok, err, ◌=?◌,
  bytes_ord, leb, ltb, ◌==◌, if◌then◌else◌, length, all, any, map_or,
}
use psky.Prelude.Text.{
  codes, is_ascii_lowercase, is_ascii_digit, is_ascii_alphabetic, is_ascii_alphanumeric, one_of,
  has_byte, split_once, rsplit_once, split, last_part, strip_prefix, starts_with, ends_with,
  first_is, decimal, parse_unsigned,
}
use psky.Repo.Error.{Error, invalid_path, invalid_metadata}

-- A lowercase letter, a digit or a hyphen.
unfoldable pub is_label_byte : ℕ → Bool
unfolding is_ascii_lowercase is_ascii_digit
is_label_byte c = is_ascii_lowercase c || is_ascii_digit c || c == b'-'

-- The closure on one segment of an authority; a hostname's labels follow the same rule.
unfoldable pub segment_valid : Bytes → Bool
unfolding is_label_byte
segment_valid s =
    not (length s == 0)
    && leb (length s) 63
    && not (starts_with (codes "-") s)
    && not (ends_with (codes "-") s)
    && all is_label_byte s

-- `segments[0]`; `split` never returns an empty list.
unfoldable pub first_segment : List Bytes → Bytes
first_segment [] = []
first_segment (s ∷ rest) = s

-- The two halves around the last dot of a collection name.
unfoldable pub nsid_parts_valid : Bytes → Bytes → Bytes → Bool
unfolding first_segment
nsid_parts_valid nsid authority name =
    if ltb 317 (length nsid)
      || ltb 253 (length authority)
      || length name == 0
      || ltb 63 (length name)
      || not (first_is is_ascii_alphabetic name)
      || not (all is_ascii_alphanumeric name)
    then false
    else (let segments = split b'.' authority in
        leb 2 (length segments)
        && first_is is_ascii_lowercase (first_segment segments)
        && all segment_valid segments)

unfoldable pub nsid_valid : Bytes → Bool
unfolding nsid_parts_valid
nsid_valid nsid = elim (rsplit_once b'.' nsid) [
  | none ↦ false
  | some (authority, name) ↦ nsid_parts_valid nsid authority name
]

unfoldable pub is_key_byte : ℕ → Bool
is_key_byte c = is_ascii_alphanumeric c || one_of (codes ".-_:~") c

-- The conditions on a record key.
unfoldable pub key_valid : Bytes → Bool
unfolding is_key_byte
key_valid key = not (
    length key == 0
    || ltb 512 (length key)
    || key =? codes "."
    || key =? codes ".."
    || not (all is_key_byte key))

unfoldable pub path : Bytes → Result Error (Unit {0})
path p = elim (split_once b'/' p) [
  | none ↦ err (invalid_path p)
  | some (nsid, key) ↦
      if not (nsid_valid nsid) || not (key_valid key) then err (invalid_path p) else ok tt
]

-- `id` after `did:plc:`.
unfoldable pub plc_valid : Bytes → Bool
plc_valid id = length id == 24 && all (λ c. is_ascii_lowercase c || leb b'2' c && leb c b'7') id

-- The `localhost%3A` port: a `u16` that is positive and printed canonically.
unfoldable pub port_valid : Bytes → Bool
port_valid port =
    map_or false (λ number. ltb 0 number && decimal number =? port) (parse_unsigned 65535 port)

unfoldable pub web_valid : Bytes → Bool
unfolding port_valid
web_valid domain =
    domain =? codes "localhost"
    || map_or false port_valid (strip_prefix (codes "localhost%3A") domain)
    || leb (length domain) 253
      && has_byte b'.' domain
      && all segment_valid (split b'.' domain)
      && any is_ascii_lowercase (last_part (split b'.' domain))

unfoldable pub did_valid : Bytes → Bool
unfolding plc_valid web_valid
did_valid did = elim (strip_prefix (codes "did:plc:") did) [
  | some id ↦ plc_valid id
  | none ↦ map_or false web_valid (strip_prefix (codes "did:web:") did)
]

abbrev pub tid_alphabet : Bytes
tid_alphabet = codes "234567abcdefghijklmnopqrstuvwxyz"

unfoldable pub rev_valid : Bytes → Bool
rev_valid rev = not (
    not (length rev == 13)
    || not (first_is (one_of (codes "234567abcdefghij")) rev)
    || not (all (one_of tid_alphabet) rev))

unfoldable pub metadata : Bytes → Bytes → Result Error (Unit {0})
metadata did rev =
    if not (did_valid did)
    then err (invalid_metadata "expected normalized did:plc or hostname-only did:web")
    else if not (rev_valid rev)
    then err (invalid_metadata "revision must be a 13-character TID")
    else ok tt
