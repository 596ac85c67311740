-- ===== src/Repo/Repository/Complete.antt =====
-- What `build` makes, `verify` accepts.
use psky.Prelude.{
  ◌≡◌, refl, inl, inr, true, none, some, Option-cases, Bytes, bytes_ord, Ord, ok, arith, [], ◌∷◌,
  All, =?_refl,
}
use psky.Prelude.Sorted
use psky.Prelude.Sorted.{Map}
use psky.Repo.Syntax.{metadata}
use psky.Repo.Library.{Library, Serialize, SignedCommit, UnsignedCommit, node, signed, unsigned}
use psky.Repo.Records.{Record, RecordSet, encode, cid_for}
use psky.Repo.Records.Invariant.{IsValid, IsStored}
use psky.Repo.Mst.{Blocks}
use psky.Repo.Mst.Reads.{IsKeyed, Extends, lookup}
use psky.Repo.Mst.Store.{insert-IsKeyed, insert-Extends, lookup-insert, IsKeyed-lookup}
use psky.Repo.Mst.Faithful.{build-Reads}
use psky.Repo.Repository.{
  Repository, unsigned_of, mapping_of, add_records, sign_low, build, check_signature, read_commit,
  verify, block,
}
use psky.Repo.Repository.Checks.{
  check_hashes_iff, check_tree_iff, check_records_iff, HoldAll, HoldRecords,
}

-- What the program relies on in the crates that it calls.
pub record Laws (lib : Library) : Type 0 where
  -- Distinct bytes have distinct identifiers, as SHA-256 is used.
  pub injective : (a b : Bytes) → cid_for lib a ≡ cid_for lib b → a ≡ b
  -- The program's values can be serialized, and a commit is read back from its bytes.
  pub encodes : (x : Serialize lib.Cid) → (bytes : Bytes) × (lib.to_vec x ≡ ok bytes)
  pub reads_back :
      (c : SignedCommit lib.Cid) (bytes : Bytes)
      → lib.to_vec (signed c) ≡ ok bytes
      → lib.from_slice bytes ≡ ok c
  -- A key's own signatures are accepted under its public key, and so are their low-S forms.
  pub has_public_key : (k : lib.SigningKey) → lib.is_public_key (lib.public_key k) ≡ true
  pub well_formed : (k : lib.SigningKey) (m : Bytes) → lib.is_signature (lib.sign k m) ≡ true
  pub accepts :
      (k : lib.SigningKey) (m : Bytes)
      → lib.verify_signature (lib.public_key k) m (lib.sign k m) ≡ true
  pub low_form : (s t : Bytes) → lib.normalize_s s ≡ some t → lib.normalize_s t ≡ none
  pub low_well_formed : (s t : Bytes) → lib.normalize_s s ≡ some t → lib.is_signature t ≡ true
  pub low_accepts :
      (p m s t : Bytes)
      → lib.normalize_s s ≡ some t
      → lib.verify_signature p m s ≡ true
      → lib.verify_signature p m t ≡ true

module _ (lib : Library) (laws : Laws lib) where
  open lib use {Cid, SigningKey}

  instance abbrev order : Ord Cid
  order = lib.cid_ord

  -- The signature that the crate makes is well formed, low, and accepted.
  sign_low_lem :
      (k : SigningKey) (m : Bytes)
      → (lib.is_signature (sign_low lib k m) ≡ true)
        × (lib.normalize_s (sign_low lib k m) ≡ none)
        × (lib.verify_signature (lib.public_key k) m (sign_low lib k m) ≡ true)
  unfolding sign_low
  sign_low_lem k m = elim (Option-cases (lib.normalize_s (lib.sign k m))) [
    | inl e ↦ rw (e, sign_low) (laws.well_formed k m, e, laws.accepts k m)
    | inr (t, e) ↦
        rw (e, sign_low)
          (
            laws.low_well_formed _ t e,
            laws.low_form _ t e,
            laws.low_accepts _ m _ t e (laws.accepts k m),
          )
  ]

  -- Records under the identifiers of their bytes.
  abbrev AreKeyed : Map Bytes (Record Cid) → Type 0
  AreKeyed = All (λ e. e.1.cid ≡ cid_for lib e.1.bytes)

  add_record :
      (c : Cid) (bytes : Bytes) (blocks : Blocks lib)
      → c ≡ cid_for lib bytes
      → IsKeyed lib blocks
      → IsKeyed lib (Sorted.insert c bytes blocks)
        × Extends lib blocks (Sorted.insert c bytes blocks)
        × (lookup lib c (Sorted.insert c bytes blocks) ≡ some bytes)
  add_record c bytes blocks e k = rw e (
    insert-IsKeyed lib blocks bytes k,
    insert-Extends lib laws.injective blocks bytes k,
    lookup-insert lib blocks bytes,
  )

  record Added (records : Map Bytes (Record Cid)) (old new : Blocks lib) : Type 0 where
    keyed : IsKeyed lib new
    extends : Extends lib old new
    held : HoldRecords lib new records

  add_records-Added :
      (records : Map Bytes (Record Cid)) (blocks : Blocks lib)
      → AreKeyed records
      → IsKeyed lib blocks
      → Added records blocks (add_records lib records blocks)
  unfolding add_records
  add_records-Added [] blocks a k = record { keyed = k; extends = λ c bytes h. h; held = tt }
  add_records-Added ((p, r) ∷ records) blocks a k =
      let (keyed, extends, here) = add_record r.cid r.bytes blocks a.0 k in
      let rest = add_records-Added records (Sorted.insert r.cid r.bytes blocks) a.1 keyed in
      record {
        keyed = rest.keyed;
        extends = λ c bytes h. rest.extends c bytes (extends c bytes h);
        held = (rest.extends r.cid r.bytes here, rest.held);
      }

  AreKeyed-of_stored :
      (records : Map Bytes (Record Cid))
      → All (λ e. IsStored lib e.0 e.1) records
      → AreKeyed records
  AreKeyed-of_stored [] h = tt
  AreKeyed-of_stored (e ∷ records) h = (h.0.1, AreKeyed-of_stored records h.1)

  All-Extends :
      (old new xs : Blocks lib) → Extends lib old new → HoldAll lib old xs → HoldAll lib new xs
  All-Extends old new [] more h = tt
  All-Extends old new (e ∷ xs) more h = (more e.0 e.1 h.0, All-Extends old new xs more h.1)

  HoldRecords-Extends :
      (old new : Blocks lib) (records : Map Bytes (Record Cid))
      → Extends lib old new
      → HoldRecords lib old records
      → HoldRecords lib new records
  HoldRecords-Extends old new [] more h = tt
  HoldRecords-Extends old new (e ∷ records) more h =
      (more e.1.cid e.1.bytes h.0, HoldRecords-Extends old new records more h.1)

  check_signature-ok :
      (k : SigningKey) (c : SignedCommit Cid) (message : Bytes)
      → lib.to_vec (unsigned (unsigned_of c)) ≡ ok message
      → c.sig ≡ sign_low lib k message
      → check_signature lib c (lib.public_key k) ≡ ok tt
  unfolding check_signature encode
  check_signature-ok k c message e s =
      let (formed, low, accepted) = sign_low_lem k message in
      rw (laws.has_public_key k, s, formed, low, e, accepted)

  read_commit-ok :
      (repo : Repository Cid) (c : SignedCommit Cid) (bytes : Bytes)
      → block lib repo repo.root ≡ some bytes
      → lib.to_vec (signed c) ≡ ok bytes
      → metadata c.did c.rev ≡ ok tt
      → c.version ≡ 3
      → c.prev ≡ none
      → read_commit lib repo ≡ ok c
  unfolding read_commit encode
  read_commit-ok repo c bytes found encoded named v p =
      ground (arith, laws.reads_back c bytes encoded, =?_refl bytes)

  -- If the library keeps its laws, then for every valid record set and valid names `build`
  -- succeeds and keeps them, and `verify` under the signer's public key accepts what it made.
  pub verify-build :
      (did rev : Bytes) (set : RecordSet Cid) (k : SigningKey)
      → IsValid lib set
      → metadata did rev ≡ ok tt
      → (repo : Repository Cid) × (build lib did rev set k ≡ ok repo)
        × (verify lib repo (lib.public_key k) ≡ ok tt)
        × (repo.records ≡ set)
        × (repo.commit.did ≡ did)
        × (repo.commit.rev ≡ rev)
  unfolding build verify encode unsigned_of
  verify-build did rev set k valid named =
      let mapping = mapping_of lib set.records in
      let (root, tree, built, keyed, _, _) =
        build-Reads lib laws.injective (λ n. laws.encodes (node n)) mapping [] tt in
      let added =
        add_records-Added set.records tree (AreKeyed-of_stored set.records valid.stored) keyed in
      let blocks = add_records lib set.records tree in
      let draft : UnsignedCommit Cid = record {
        did = did;
        version = 3;
        root = root;
        rev = rev;
        prev = none;
      } in
      let (message, drafted) = laws.encodes (unsigned draft) in
      let commit : SignedCommit Cid = record {
        did = did;
        version = 3;
        root = root;
        rev = rev;
        prev = none;
        sig = sign_low lib k message;
      } in
      let (bytes, encoded) = laws.encodes (signed commit) in
      let id = cid_for lib bytes in
      let final = Sorted.insert id bytes blocks in
      let more = insert-Extends lib laws.injective blocks bytes added.keyed in
      let repo : Repository Cid = record {
        commit = commit;
        root = id;
        records = set;
        blocks = final;
      } in
      (
        repo,
        rw (named, built, drafted, encoded),
        rw
            (
              (check_hashes_iff lib final).1 (insert-IsKeyed lib blocks bytes added.keyed),
              read_commit-ok repo commit bytes (lookup-insert lib blocks bytes) encoded named refl
                  refl,
              check_signature-ok k commit message drafted refl,
              built,
              =?_refl root,
              (check_tree_iff lib final tree).1 (
                  All-Extends blocks final tree more (
                    All-Extends tree blocks tree added.extends
                      (IsKeyed-lookup lib laws.injective tree keyed))),
            )
            ((check_records_iff lib final set.records).1
              (HoldRecords-Extends blocks final set.records more added.held)),
        refl,
        refl,
        refl,
      )
