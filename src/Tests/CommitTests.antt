-- ===== src/Tests/CommitTests.antt =====
-- Runs of the tree, of signed commits and of revisions.
use psky.Prelude.{
  ◌≡◌, refl, true, none, some, Bytes, bytes_ord, bytes_cmp, Ordering, ok, [], ◌∷◌, ◌++◌, suc, arith,
  length,
}
use psky.Prelude.Sorted.{Map}
use psky.Prelude.Text.{codes}
use psky.Repo.Syntax.{metadata, rev_valid}
use psky.Repo.Library.{SignedCommit, node}
use psky.Repo.Records.{RecordSet}
use psky.Repo.Mst
use psky.Repo.Mst.{Blocks, items_of, top_layer}
use psky.Repo.Mst.Reads.{IsKeyed, Extends, Reads}
use psky.Repo.Mst.Faithful.{build-Reads}
use psky.Repo.Repository.{Repository, build, verify, mapping_of}
use psky.Repo.Repository.Checks.{HoldRecords}
use psky.Repo.Repository.Sound.{IsCommitted, IsSigned, verify_sound}
use psky.Repo.Repository.Complete.{verify-build}
use psky.Credentials.Revision.{revision}
use psky.Credentials.Revision.Order.{revision-valid, revision_mono}
use psky.Tests.Sample.{sample, sample_laws, to_bytes}
use psky.Tests.RepoTests.{note_path, note_bytes, one_note, one_note-IsValid}

abbrev did : Bytes
did = codes "did:web:alice.example"

abbrev rev : Bytes
rev = codes "3l5wyz2222222"

metadata-ok : metadata did rev ≡ ok tt
unfolding bytes_cmp metadata psky.Prelude.Text.ends_with psky.Prelude.Text.last_part
    psky.Prelude.Text.split psky.Prelude.Text.strip_prefix psky.Repo.Syntax.did_valid
    psky.Repo.Syntax.segment_valid rev_valid
metadata-ok = refl

verify-build_example :
    (repo : Repository Bytes) × (build sample did rev one_note (7 ∷ []) ≡ ok repo)
    × (verify sample repo (7 ∷ []) ≡ ok tt)
    × (repo.records ≡ one_note)
    × (repo.commit.did ≡ did)
    × (repo.commit.rev ≡ rev)
verify-build_example =
    verify-build sample sample_laws did rev one_note (7 ∷ []) one_note-IsValid metadata-ok

-- Keys at the layers 1, 0 and 2.
abbrev mapping : Map Bytes Bytes
mapping = ((b'1' ∷ [], 1 ∷ []) ∷ (b'a' ∷ [], 2 ∷ []) ∷ (8 ∷ [], 3 ∷ []) ∷ [])

build-Reads_example :
    (root : Bytes) × (written : Blocks sample) × (Mst.build sample mapping [] ≡ ok (root, written))
    × IsKeyed sample written
    × Extends sample [] written
    × Reads sample written (suc (top_layer (items_of sample mapping))) (some root) mapping
build-Reads_example =
    build-Reads sample sample_laws.injective (λ n. (to_bytes (node n), refl)) mapping [] tt

abbrev note_node : Bytes
note_node = 10 ∷ 0 ∷ 0 ∷ 19 ∷ note_path ++ (31 ∷ note_bytes ++ (0 ∷ 9 ∷ []))

abbrev message : Bytes
message = 21 ∷ did ++ (3 ∷ length note_node ∷ note_node ++ (13 ∷ rev ++ (0 ∷ [])))

abbrev signature : Bytes
signature = 0 ∷ 7 ∷ message

abbrev commit : SignedCommit Bytes
commit = record {
  did = did;
  version = 3;
  root = note_node;
  rev = rev;
  prev = none;
  sig = signature;
}

abbrev commit_block : Bytes
commit_block = message ++ (length signature ∷ signature)

abbrev repository : Repository Bytes
repository = record {
  commit = commit;
  root = commit_block;
  records = one_note;
  blocks = (note_bytes, note_bytes) ∷ (note_node, note_node) ∷ (commit_block, commit_block) ∷ [];
}

repository-ok : verify sample repository (7 ∷ []) ≡ ok tt
unfolding Mst.build Mst.child Mst.common_prefix Mst.count_zeros Mst.group_at Mst.layer
    Mst.leading_zeros Mst.subtree Mst.write_entries Mst.write_node bytes_cmp items_of mapping_of
    metadata psky.Prelude.Sorted.get psky.Prelude.Sorted.insert psky.Prelude.Text.decimal
    psky.Prelude.Text.decimal_from psky.Prelude.Text.digits_value psky.Prelude.Text.ends_with
    psky.Prelude.Text.is_ascii_digit psky.Prelude.Text.is_ascii_lowercase
    psky.Prelude.Text.last_part psky.Prelude.Text.parse_unsigned psky.Prelude.Text.split
    psky.Prelude.Text.strip_prefix psky.Repo.Records.cid_for psky.Repo.Records.encode
    psky.Repo.Repository.check_hashes psky.Repo.Repository.check_records
    psky.Repo.Repository.check_signature psky.Repo.Repository.check_tree psky.Repo.Repository.decode
    psky.Repo.Repository.holds psky.Repo.Repository.read_commit psky.Repo.Repository.unsigned_of
    psky.Repo.Syntax.did_valid psky.Repo.Syntax.is_label_byte psky.Repo.Syntax.plc_valid
    psky.Repo.Syntax.port_valid psky.Repo.Syntax.segment_valid psky.Repo.Syntax.web_valid
    psky.Tests.Sample.read_commit psky.Tests.Sample.read_number psky.Tests.Sample.read_sized
    psky.Tests.Sample.read_sized_option rev_valid to_bytes top_layer verify psky.Tests.Sample.low
    psky.Tests.Sample.accepts
repository-ok = refl

verify_sound_example :
    (commit : SignedCommit Bytes) × IsKeyed sample repository.blocks
    × IsCommitted sample repository commit
    × IsSigned sample commit (7 ∷ [])
    × Reads sample repository.blocks
        (suc (top_layer (items_of sample (mapping_of sample one_note.records))))
        (some commit.root)
        (mapping_of sample one_note.records)
    × HoldRecords sample repository.blocks one_note.records
verify_sound_example =
    verify_sound sample sample_laws.injective (λ n. (to_bytes (node n), refl)) repository (7 ∷ [])
      repository-ok

revision-valid_example : rev_valid (revision 1_700_000_000) ≡ true
revision-valid_example = revision-valid 1_700_000_000

revision_mono_example : bytes_cmp (revision 1_700_000_000) (revision 1_700_000_001) ≡ Ordering.lt
revision_mono_example = revision_mono 1_700_000_000 1_700_000_001 (omega arith) (omega arith)
