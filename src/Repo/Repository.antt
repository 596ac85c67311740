-- ===== src/Repo/Repository.antt =====
-- `RepoSigner` and `Repository` of crates/psky-repo/src/lib.rs: a signed snapshot and its self-check.
pub mod Checks
pub mod Sound
pub mod Complete
use psky.Prelude.{
  ℕ, Bool, true, false, not, ◌&&◌, ◌||◌, Option, none, some, Bytes, bytes_ord, Ord, ◌=?◌, Result,
  ok, err, ◌>>=◌, ◌>>◌, fail_if, ok_or, map_err, is_none, is_some, List, [], ◌∷◌, map, ◌==◌,
}
use psky.Prelude.Sorted
use psky.Prelude.Sorted.{Map}
use psky.Repo.Error.{Error, signature, verification, cbor}
use psky.Repo.Syntax.{metadata}
use psky.Repo.Library.{Library, UnsignedCommit, SignedCommit, Serialize, unsigned, signed}
use psky.Repo.Records.{Record, RecordSet, encode, cid_for}
use psky.Repo.Mst
use psky.Repo.Car.{export}
use psky.Repo.Mst.{Blocks}

pub record Repository (Cid : Type 0) : Type 0 where
  pub commit : SignedCommit Cid
  pub root : Cid
  pub records : RecordSet Cid
  pub blocks : Map Cid Bytes

-- `SignedCommit::unsigned`
unfoldable pub unsigned_of : {Cid : Type 0} → SignedCommit Cid → UnsignedCommit Cid
unsigned_of c = record {
  did = c.did;
  version = c.version;
  root = c.root;
  rev = c.rev;
  prev = c.prev;
}

module _ (lib : Library) where
  open lib use {
    Cid, from_slice, SigningKey, key_from_bytes, public_key, sign, normalize_s, is_public_key,
    is_signature, verify_signature,
  }

  instance abbrev order : Ord Cid
  order = lib.cid_ord

  -- `RepoSigner::from_bytes`
  unfoldable pub signer_from_bytes : Bytes → Result Error SigningKey
  signer_from_bytes bytes = ok_or (key_from_bytes bytes) signature

  -- `RepoSigner::sign`: the low-S form.
  unfoldable pub sign_low : SigningKey → Bytes → Bytes
  sign_low key bytes =
      let raw = sign key bytes in elim (normalize_s raw) [ none ↦ raw | some low ↦ low ]

  unfoldable pub decode : Bytes → Result Error (SignedCommit Cid)
  decode bytes = map_err cbor (from_slice bytes)

  -- `records.iter().map(|(p, r)| (p, r.cid)).collect()`
  unfoldable pub mapping_of : Map Bytes (Record Cid) → Map Bytes Cid
  mapping_of records = map (λ e. (e.0, e.1.cid)) records

  -- The loop that adds the record blocks.
  unfoldable pub add_records : Map Bytes (Record Cid) → Blocks lib → Blocks lib
  add_records [] blocks = blocks
  add_records ((p, r) ∷ records) blocks = add_records records (Sorted.insert r.cid r.bytes blocks)

  unfoldable pub build : Bytes → Bytes → RecordSet Cid → SigningKey → Result Error (Repository Cid)
  unfolding mapping_of
  build did rev set key = do
    metadata did rev
    (root, tree) ← Mst.build lib (mapping_of set.records) []
    let blocks = add_records set.records tree
    message ←
        encode lib
          (unsigned (record { did = did; version = 3; root = root; rev = rev; prev = none }))
    let commit : SignedCommit Cid = record {
      did = did;
      version = 3;
      root = root;
      rev = rev;
      prev = none;
      sig = sign_low key message;
    }
    bytes ← encode lib (signed commit)
    let id = cid_for lib bytes
    ok (record {
      commit = commit;
      root = id;
      records = set;
      blocks = Sorted.insert id bytes blocks;
    })

  -- `Repository::block`
  abbrev pub block : Repository Cid → Cid → Option Bytes
  block repo cid = Sorted.get cid repo.blocks

  unfoldable pub to_car : Repository Cid → Result Error Bytes
  to_car repo = export lib repo.root repo.blocks

  -- `self.block(&cid) == Some(bytes)`
  unfoldable pub holds : Map Cid Bytes → Cid → Bytes → Bool
  holds blocks cid bytes = elim (Sorted.get cid blocks) [ none ↦ false | some b ↦ b =? bytes ]

  -- The first loop of `verify`.
  unfoldable pub check_hashes : Map Cid Bytes → Result Error (Unit {0})
  check_hashes [] = ok tt
  check_hashes ((cid, bytes) ∷ blocks) = do
    fail_if (not (cid_for lib bytes =? cid)) (verification "block hash mismatch")
    check_hashes blocks

  -- The loop over the expected tree blocks.
  unfoldable pub check_tree : Map Cid Bytes → Map Cid Bytes → Result Error (Unit {0})
  unfolding holds
  check_tree blocks [] = ok tt
  check_tree blocks ((cid, bytes) ∷ expected) = do
    fail_if (not (holds blocks cid bytes)) (verification "missing or incorrect MST block")
    check_tree blocks expected

  -- The loop over the records.
  unfoldable pub check_records : Map Cid Bytes → Map Bytes (Record Cid) → Result Error (Unit {0})
  unfolding holds
  check_records blocks [] = ok tt
  check_records blocks ((p, r) ∷ records) = do
    fail_if (not (holds blocks r.cid r.bytes)) (verification "missing record block")
    check_records blocks records

  -- The signature check of a commit that was read, under a public key.
  unfoldable pub check_signature : SignedCommit Cid → Bytes → Result Error (Unit {0})
  unfolding unsigned_of
  check_signature commit public = do
    fail_if (not (is_public_key public)) signature
    fail_if (not (is_signature commit.sig)) signature
    fail_if (is_some (normalize_s commit.sig)) signature
    message ← encode lib (unsigned (unsigned_of commit))
    fail_if (not (verify_signature public message commit.sig)) signature

  -- What `verify` reads as the commit, with the checks on its schema and encoding.
  unfoldable pub read_commit : Repository Cid → Result Error (SignedCommit Cid)
  unfolding decode
  read_commit repo = do
    bytes ← ok_or (block repo repo.root) (verification "missing commit")
    commit ← decode bytes
    metadata commit.did commit.rev
    fail_if (not (commit.version == 3) || is_some commit.prev)
        (verification "invalid commit schema or encoding")
    again ← encode lib (signed commit)
    fail_if (not (again =? bytes)) (verification "invalid commit schema or encoding")
    ok commit

  unfoldable pub verify : Repository Cid → Bytes → Result Error (Unit {0})
  unfolding mapping_of
  verify repo public = do
    check_hashes repo.blocks
    commit ← read_commit repo
    check_signature commit public
    (root, expected) ← Mst.build lib (mapping_of repo.records.records) []
    fail_if (not (root =? commit.root)) (verification "MST root mismatch")
    check_tree repo.blocks expected
    check_records repo.blocks repo.records.records
