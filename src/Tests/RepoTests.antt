-- ===== src/Tests/RepoTests.antt =====
-- Runs of the record set, the syntax, the record conversion and the export.
use psky.Prelude.{
  ◌≡◌, refl, true, false, none, some, Bytes, bytes_ord, ok, err, [], ◌∷◌, ◌++◌, ◌≤◌, ◌+◌, ◌*◌, ℕ,
  zero, suc, List, length, arith, ap, map_or, is_some, ◌=?◌, bytes_cmp, if◌then◌else◌, ◌↔◌,
}
use psky.Prelude.Int.{pos}
use psky.Prelude.Text.{codes}
use psky.Prelude.Sorted
use psky.Prelude.Sorted.{Map}
use psky.Json.{Value, Fields, field, Number}
use psky.Repo.Syntax.{path}
use psky.Repo.Library.{Ipld, Entries, entry, header}
use psky.Repo.Records.{
  Record, RecordSet, empty, put, encode_record, store, get, delete, cid_for, encode, max_records,
  type_is, collection_of, byte_length,
}
use psky.Repo.Records.Invariant.{
  IsValid, empty-IsValid, put-IsValid, replay, replay-IsValid, puts, deletes,
}
use psky.Repo.Records.Mutations.{get-put, get-delete}
use psky.Repo.Error.{verification}
use psky.Repo.Ipld.{json_to_ipld, max_record_bytes, max_record_depth}
use psky.Repo.Ipld.Bounds.{size, depth, IsSafe, json_to_ipld-IsBounded}
use psky.Repo.Car.{varint, export}
use psky.Repo.Car.Varint.{read_varint, read_varint-varint}
use psky.Repo.Car.Frames.{read_frames, others, section, export-frames}
use psky.Repo.Mst.Reads.{lookup}
use psky.Repo.Syntax.{nsid_valid, key_valid}
use psky.Repo.Syntax.Paths.{path-append_iff}
use psky.Tests.Sample.{sample, to_bytes}

abbrev pub collection : Bytes
collection = codes "com.example.note"

abbrev pub note_path : Bytes
note_path = codes "com.example.note/a1"

abbrev note : Value
note = Value.object (
    field (codes "$type") (Value.string collection)
      (field (codes "n") (Value.number (Number.integer (pos 5))) Fields.end))

abbrev pub note_bytes : Bytes
note_bytes =
    8 ∷ 5 ∷ codes "$type" ++ (4 ∷ 16 ∷ collection ++ (1 ∷ codes "n" ++ (3 ∷ 0 ∷ 5 ∷ 9 ∷ [])))

abbrev pub one_note : RecordSet Bytes
one_note = record {
  records = (note_path, record { cid = note_bytes; bytes = note_bytes }) ∷ [];
  encoded_bytes = 31;
}

note_path-ok : path note_path ≡ ok tt
unfolding encode_record path psky.Json.as_i64 psky.Json.as_str psky.Json.get psky.Json.get_field
    psky.Prelude.Sorted.get psky.Prelude.Sorted.insert psky.Prelude.Text.ends_with
    psky.Prelude.Text.is_ascii_alphabetic psky.Prelude.Text.is_ascii_alphanumeric
    psky.Prelude.Text.is_ascii_digit psky.Prelude.Text.is_ascii_lowercase
    psky.Prelude.Text.is_ascii_uppercase psky.Prelude.Text.rsplit_once psky.Prelude.Text.split
    psky.Prelude.Text.split_once psky.Prelude.Text.strip_prefix psky.Prelude.bytes_cmp
    psky.Repo.Ipld.convert_bytes psky.Repo.Ipld.convert_link psky.Repo.Ipld.convert_number
    psky.Repo.Ipld.enter psky.Repo.Ipld.insert_entry psky.Repo.Ipld.json_to_ipld
    psky.Repo.Ipld.link_supported psky.Repo.Ipld.safe_integer psky.Repo.Ipld.spend
    psky.Repo.Records.cid_for psky.Repo.Records.collection_of psky.Repo.Records.encode
    psky.Repo.Records.encoded_bytes_after psky.Repo.Records.type_is psky.Repo.Syntax.first_segment
    psky.Repo.Syntax.is_key_byte psky.Repo.Syntax.is_label_byte psky.Repo.Syntax.key_valid
    psky.Repo.Syntax.nsid_parts_valid psky.Repo.Syntax.nsid_valid psky.Repo.Syntax.segment_valid put
    store
note_path-ok = refl

put-note : put sample empty note_path note ≡ ok (one_note, note_bytes)
unfolding encode_record path psky.Json.as_i64 psky.Json.as_str psky.Json.get psky.Json.get_field
    psky.Prelude.Sorted.get psky.Prelude.Sorted.insert psky.Prelude.Text.ends_with
    psky.Prelude.Text.is_ascii_alphabetic psky.Prelude.Text.is_ascii_alphanumeric
    psky.Prelude.Text.is_ascii_digit psky.Prelude.Text.is_ascii_lowercase
    psky.Prelude.Text.is_ascii_uppercase psky.Prelude.Text.rsplit_once psky.Prelude.Text.split
    psky.Prelude.Text.split_once psky.Prelude.Text.strip_prefix psky.Prelude.bytes_cmp
    psky.Repo.Ipld.convert_bytes psky.Repo.Ipld.convert_link psky.Repo.Ipld.convert_number
    psky.Repo.Ipld.enter psky.Repo.Ipld.insert_entry psky.Repo.Ipld.json_to_ipld
    psky.Repo.Ipld.link_supported psky.Repo.Ipld.safe_integer psky.Repo.Ipld.spend
    psky.Repo.Records.cid_for psky.Repo.Records.collection_of psky.Repo.Records.encode
    psky.Repo.Records.encoded_bytes_after psky.Repo.Records.type_is psky.Repo.Syntax.first_segment
    psky.Repo.Syntax.is_key_byte psky.Repo.Syntax.is_label_byte psky.Repo.Syntax.key_valid
    psky.Repo.Syntax.nsid_parts_valid psky.Repo.Syntax.nsid_valid psky.Repo.Syntax.segment_valid put
    store to_bytes
put-note = refl

pub one_note-IsValid : IsValid sample one_note
one_note-IsValid =
    put-IsValid sample empty one_note note_path note note_bytes (empty-IsValid sample) put-note

replay-IsValid_example : IsValid sample (
    replay sample empty (
      puts note_path note ∷ puts (codes "bad") note ∷ puts note_path note ∷ deletes note_path ∷ []))
replay-IsValid_example =
    replay-IsValid sample
      (puts note_path note ∷ puts (codes "bad") note ∷ puts note_path note ∷ deletes note_path ∷ [])

get-put_example :
    (bytes : Bytes) × (encode_record sample empty note_path note ≡ ok bytes)
    × (note_bytes ≡ cid_for sample bytes)
    × ((q : Bytes)
        → get one_note q ≡ (
            if note_path =? q
            then some (record { cid = note_bytes; bytes = bytes })
            else get (empty {Cid = sample.Cid}) q))
get-put_example = get-put sample empty one_note note_path note note_bytes put-note

get-delete_example :
    (next : RecordSet Bytes) × (delete one_note note_path
      ≡ ok (next, is_some (get one_note note_path)))
    × ((q : Bytes) → get next q ≡ (if note_path =? q then none else get one_note q))
    × (next.encoded_bytes + map_or 0 byte_length (get one_note note_path) ≡ 31)
get-delete_example = get-delete sample one_note note_path one_note-IsValid note_path-ok

-- Notes behind every other path, as many as are asked for.
unfoldable notes : ℕ → ℕ → Map Bytes (Record Bytes)
notes from zero = []
notes from (suc n) =
    (b'z' ∷ from ∷ [], record { cid = note_bytes; bytes = note_bytes }) ∷ notes (suc from) n

length-notes : (from n : ℕ) → length (notes from n) ≡ n
unfolding notes
length-notes from zero = refl
length-notes from (suc n) = ap suc (length-notes (suc from) n)

get-notes : (from n : ℕ) → Sorted.get note_path (notes from n) ≡ none
unfolding notes bytes_cmp Sorted.get
get-notes from zero = refl
get-notes from (suc n) = get-notes (suc from) n

abbrev full : RecordSet Bytes
full = record { records = notes 0 max_records; encoded_bytes = 31 * max_records }

note-typed : type_is note (collection_of note_path) ≡ true
unfolding bytes_cmp collection_of psky.Json.as_str psky.Json.get psky.Prelude.Text.split_once
    type_is
note-typed = refl

full-get : get full note_path ≡ none
unfolding get
full-get = get-notes 0 max_records

base64_decode-length : (s t : Bytes) → sample.base64_decode s ≡ some t → length t ≤ length s
base64_decode-length s t e = ground arith

abbrev note_ipld : Ipld Bytes
note_ipld = Ipld.map (
    entry (codes "$type") (Ipld.string collection)
      (entry (codes "n") (Ipld.integer (pos 5)) Entries.end))

note-json_to_ipld : json_to_ipld sample note 0 max_record_bytes ≡ ok (note_ipld, 999_975)
unfolding bytes_cmp json_to_ipld psky.Json.as_i64 psky.Json.get_field psky.Repo.Ipld.convert_number
    psky.Repo.Ipld.enter psky.Repo.Ipld.insert_entry
note-json_to_ipld = refl

json_to_ipld-IsBounded_example :
    (size sample.cid_string note_ipld + 999_975 ≤ 1_000_000)
    × (depth note_ipld ≤ 64)
    × IsSafe note_ipld
json_to_ipld-IsBounded_example =
    json_to_ipld-IsBounded sample base64_decode-length note 999_975 note_ipld note-json_to_ipld

varint_example :
    (code : Bytes) × (varint 300 (7 ∷ []) ≡ (7 ∷ []) ++ code)
    × (read_varint (code ++ (9 ∷ [])) ≡ some (300, 9 ∷ []))
varint_example = read_varint-varint 300 (7 ∷ []) (9 ∷ [])

path-append_iff_example :
    (path (collection ++ b'/' ∷ codes "a1") ≡ ok tt)
    ↔ ((nsid_valid collection ≡ true) × (key_valid (codes "a1") ≡ true))
path-append_iff_example = path-append_iff collection (codes "a1")

abbrev two_blocks : List (Bytes × Bytes)
two_blocks = (1 ∷ [], 1 ∷ []) ∷ (2 ∷ 3 ∷ [], 2 ∷ 3 ∷ []) ∷ []

abbrev head : Bytes
head = 11 ∷ 1 ∷ 2 ∷ 2 ∷ 3 ∷ []

head-encode : encode sample (header (record { roots = (2 ∷ 3 ∷ []) ∷ []; version = 1 })) ≡ ok head
unfolding encode to_bytes
head-encode = refl

export-frames_example :
    (lookup sample (2 ∷ 3 ∷ []) two_blocks ≡ none
      → export sample (2 ∷ 3 ∷ []) two_blocks ≡ err (verification "missing CAR root"))
    × ((bytes : Bytes)
        → lookup sample (2 ∷ 3 ∷ []) two_blocks ≡ some bytes
        → (out : Bytes) × (export sample (2 ∷ 3 ∷ []) two_blocks ≡ ok out)
          × (read_frames (length (others sample (2 ∷ 3 ∷ []) two_blocks) + 3) out
              ≡ some (
                  head
                  ∷ section sample (2 ∷ 3 ∷ [], bytes)
                  ∷ others sample (2 ∷ 3 ∷ []) two_blocks)))
export-frames_example = export-frames sample (2 ∷ 3 ∷ []) two_blocks head head-encode
