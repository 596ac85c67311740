-- ===== src/Repo/Repository/Sound.antt =====
-- What a repository that `verify` accepts is known to hold.
use psky.Prelude.{
  suc, ◌≡◌, sym, ◌∙◌, true, not, ◌||◌, none, some, Bytes, bytes_ord, Ord, ok, >>=-eq-ok,
  fail_if-eq-ok, on_ok, on_pass, ok-injective, is_some, arith, [], ◌=?◌, =?_iff, ◌==◌, ==_iff,
  ok_or,
}
use mathlib.Core.Path.{subst}
use psky.Prelude.Sorted.{Map}
use psky.Repo.Error.{verification}
use psky.Repo.Syntax.{metadata}
use psky.Repo.Library.{Library, Serialize, Node, SignedCommit, node, signed, unsigned}
use psky.Repo.Records.{encode, cid_for}
use psky.Repo.Mst
use psky.Repo.Mst.{Blocks, items_of, top_layer}
use psky.Repo.Mst.Reads.{Reads, IsKeyed, Reads-extends}
use psky.Repo.Mst.Store.{Extends-of_All}
use psky.Repo.Mst.Faithful.{build-Reads}
use psky.Repo.Repository.{
  Repository, unsigned_of, mapping_of, check_hashes, check_tree, check_signature, read_commit,
  verify, decode, block,
}
use psky.Repo.Repository.Checks.{
  check_hashes_iff, check_tree_iff, check_records_iff, HoldAll, HoldRecords,
}

module _ (lib : Library) where
  open lib use {Cid}

  instance abbrev order : Ord Cid
  order = lib.cid_ord

  -- The commit is the block under the root: version 3 with no predecessor, valid names, and in
  -- canonical encoding.
  pub record IsCommitted (repo : Repository Cid) (commit : SignedCommit Cid) : Type 0 where
    pub bytes : Bytes
    pub found : block lib repo repo.root ≡ some bytes
    pub read : lib.from_slice bytes ≡ ok commit
    pub canonical : lib.to_vec (signed commit) ≡ ok bytes
    pub named : metadata commit.did commit.rev ≡ ok tt
    pub version : commit.version ≡ 3
    pub first : commit.prev ≡ none

  -- The commit without its signature is signed under the key, in the low-S form.
  pub record IsSigned (commit : SignedCommit Cid) (public : Bytes) : Type 0 where
    pub message : Bytes
    pub encoded : lib.to_vec (unsigned (unsigned_of commit)) ≡ ok message
    pub low : lib.normalize_s commit.sig ≡ none
    pub accepted : lib.verify_signature public message commit.sig ≡ true

  encode-eq :
      (x : Serialize Cid) (bytes : Bytes) → encode lib x ≡ ok bytes → lib.to_vec x ≡ ok bytes
  unfolding encode
  encode-eq x bytes h = ground arith

  decode-eq :
      (bytes : Bytes) (c : SignedCommit Cid) → decode lib bytes ≡ ok c → lib.from_slice bytes ≡ ok c
  unfolding decode
  decode-eq bytes c h = ground arith

  read_commit-IsCommitted :
      (repo : Repository Cid) (commit : SignedCommit Cid)
      → read_commit lib repo ≡ ok commit
      → IsCommitted repo commit
  unfolding read_commit
  read_commit-IsCommitted repo commit h =
      let (bytes, found, h1) =
        >>=-eq-ok (ok_or (block lib repo repo.root) (verification "missing commit")) _ h in
      let (c, read, h2) = >>=-eq-ok (decode lib bytes) _ h1 in
      let (_, named, h3) = >>=-eq-ok (metadata c.did c.rev) _ h2 in
      let (schema, h4) = fail_if-eq-ok (not (c.version == 3) || is_some c.prev) _ _ h3 in
      let (again, encoded, h5) = >>=-eq-ok (encode lib (signed c)) _ h4 in
      let (same, h6) = fail_if-eq-ok (not (again =? bytes)) _ _ h5 in
      let here : c ≡ commit = cc h6 in
      subst (IsCommitted repo) here (record {
        bytes = bytes;
        found = ground (arith, found);
        read = decode-eq bytes c read;
        canonical = ground (arith, same, encode-eq (signed c) again encoded, =?_iff again bytes);
        named = ground (arith, named);
        version = ground (arith, schema, ==_iff c.version 3);
        first = ground (arith, schema);
      })

  check_signature-IsSigned :
      (commit : SignedCommit Cid) (public : Bytes)
      → check_signature lib commit public ≡ ok tt
      → IsSigned commit public
  unfolding check_signature
  check_signature-IsSigned commit public h =
      let (_, h1) = fail_if-eq-ok (not (lib.is_public_key public)) _ _ h in
      let (_, h2) = fail_if-eq-ok (not (lib.is_signature commit.sig)) _ _ h1 in
      let (low, h3) = fail_if-eq-ok (is_some (lib.normalize_s commit.sig)) _ _ h2 in
      let (message, encoded, h4) = >>=-eq-ok (encode lib (unsigned (unsigned_of commit))) _ h3 in
      record {
        message = message;
        encoded = encode-eq (unsigned (unsigned_of commit)) message encoded;
        low = ground (arith, low);
        accepted = ground (arith, h4);
      }

  module _ (injective : (a b : Bytes) → cid_for lib a ≡ cid_for lib b → a ≡ b)
      (encodes : (n : Node Cid) → (bytes : Bytes) × (lib.to_vec (node n) ≡ ok bytes)) where
    -- Blocks that hold all that `build` writes hold its tree.
    pub built-Reads :
        (blocks expected : Blocks lib) (mapping : Map Bytes Cid) (root wanted : Cid)
        → Mst.build lib mapping [] ≡ ok (root, expected)
        → root ≡ wanted
        → HoldAll lib blocks expected
        → Reads lib blocks (suc (top_layer (items_of lib mapping))) (some wanted) mapping
    built-Reads blocks expected mapping root wanted built same held =
        let (r, written, returned, _, _, reads) = build-Reads lib injective encodes mapping [] tt in
        let here : (r, written) ≡ (root, expected) = ok-injective (sym returned ∙ built) in
        subst
          (λ (w : Cid × Blocks lib).
            HoldAll lib blocks w.1
            → w.0 ≡ wanted
            → Reads lib blocks (suc (top_layer (items_of lib mapping))) (some wanted) mapping)
          here
          (λ all eq.
            subst (λ c. Reads lib blocks (suc (top_layer (items_of lib mapping))) (some c) mapping)
              eq (Reads-extends (Extends-of_All lib written blocks all) reads))
          held same

    -- If distinct bytes have distinct identifiers and nodes can be encoded, a repository that
    -- `verify` accepts is as it should be: every block is under the identifier of its bytes,
    -- the root is a commit that is signed under the key, below the commit stands a search tree
    -- of exactly the records, and the block of every record is there.
    pub verify_sound :
        (repo : Repository Cid) (public : Bytes)
        → verify lib repo public ≡ ok tt
        → (commit : SignedCommit Cid) × IsKeyed lib repo.blocks
          × IsCommitted repo commit
          × IsSigned commit public
          × Reads lib repo.blocks
              (suc (top_layer (items_of lib (mapping_of lib repo.records.records))))
              (some commit.root)
              (mapping_of lib repo.records.records)
          × HoldRecords lib repo.blocks repo.records.records
    unfolding verify
    verify_sound repo public h = on_ok (check_hashes lib repo.blocks) _ h λ _ hashes h1.
        on_ok (read_commit lib repo) _ h1 λ commit read h2.
          on_ok (check_signature lib commit public) _ h2 λ _ sealed h3.
            on_ok (Mst.build lib (mapping_of lib repo.records.records) []) _ h3
              λ (root, expected) built h4. on_pass (not (root =? commit.root)) _ _ h4 λ same h5.
                on_ok (check_tree lib repo.blocks expected) _ h5 λ _ tree h6. (
                  commit,
                  (check_hashes_iff lib repo.blocks).0 hashes,
                  read_commit-IsCommitted repo commit read,
                  check_signature-IsSigned commit public sealed,
                  built-Reads repo.blocks expected (mapping_of lib repo.records.records) root
                      commit.root built (ground (arith, same, =?_iff root commit.root))
                      ((check_tree_iff lib repo.blocks expected).0 tree),
                  (check_records_iff lib repo.blocks repo.records.records).0 h6,
                )
