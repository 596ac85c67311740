-- ===== src/Tests/Sample.antt =====
-- A small concrete library for the runs: a block is its own hash and its own identifier, every value
-- is written with length prefixes, and a signature is the key, a marker and the message.
use mathlib.Core.List.{append-nil}
use psky.Prelude.{
  ℕ, zero, suc, ◌==◌, ap, ◌∙◌, ◌≡◌, refl, Bool, true, false, Option, none, some, Bytes, bytes_ord,
  ◌=?◌, =?_refl, Result, ok, err, ◌>>=◌, List, [], ◌∷◌, ◌++◌, leb, if◌then◌else◌, length, take,
  drop, take-length-append, drop-length-append, length-append, arith, ok-injective, sym,
}
use psky.Prelude.Int.{ℤ, pos, negsuc}
use psky.Repo.Library.{
  Library, Ipld, Items, Entries, Entry, SignedCommit, Serialize, record_value, node, header,
  unsigned, signed, entry,
}
use psky.Repo.Records.{cid_for}
use psky.Repo.Repository.Complete.{Laws}

abbrev pub sized : Bytes → Bytes
sized s = length s ∷ s

abbrev pub sized_option : Option Bytes → Bytes
sized_option none = 0 ∷ []
sized_option (some s) = 1 ∷ sized s

abbrev integer_bytes : ℤ → Bytes
integer_bytes (pos n) = 0 ∷ n ∷ []
integer_bytes (negsuc n) = 1 ∷ n ∷ []

unfoldable mutual
  ipld_bytes : Ipld Bytes → Bytes
  ipld_bytes Ipld.null = 0 ∷ []
  ipld_bytes (Ipld.bool false) = 1 ∷ []
  ipld_bytes (Ipld.bool true) = 2 ∷ []
  ipld_bytes (Ipld.integer i) = 3 ∷ integer_bytes i
  ipld_bytes (Ipld.string s) = 4 ∷ sized s
  ipld_bytes (Ipld.bytes s) = 5 ∷ sized s
  ipld_bytes (Ipld.link s) = 6 ∷ sized s
  ipld_bytes (Ipld.list xs) = 7 ∷ items_bytes xs
  ipld_bytes (Ipld.map m) = 8 ∷ entries_bytes m

  items_bytes : Items Bytes → Bytes
  items_bytes Items.nil = 9 ∷ []
  items_bytes (Items.cons i xs) = ipld_bytes i ++ items_bytes xs

  entries_bytes : Entries Bytes → Bytes
  entries_bytes Entries.end = 9 ∷ []
  entries_bytes (entry k i m) = sized k ++ (ipld_bytes i ++ entries_bytes m)

unfoldable node_entries_bytes : List (Entry Bytes) → Bytes
node_entries_bytes [] = 9 ∷ []
node_entries_bytes (e ∷ es) =
    e.p ∷ sized e.k ++ (sized e.v ++ (sized_option e.t ++ node_entries_bytes es))

unfoldable roots_bytes : List Bytes → Bytes
roots_bytes [] = []
roots_bytes (r ∷ rs) = sized r ++ roots_bytes rs

-- A commit's fields, and a signature behind them.
abbrev commit_bytes : Bytes → ℕ → Bytes → Bytes → Option Bytes → Bytes → Bytes
commit_bytes did version root rev prev rest =
    sized did ++ (version ∷ sized root ++ (sized rev ++ (sized_option prev ++ rest)))

unfoldable pub to_bytes : Serialize Bytes → Bytes
unfolding ipld_bytes node_entries_bytes roots_bytes
to_bytes (record_value i) = ipld_bytes i
to_bytes (node n) = 10 ∷ sized_option n.l ++ node_entries_bytes n.e
to_bytes (header h) = 11 ∷ h.version ∷ roots_bytes h.roots
to_bytes (unsigned c) = commit_bytes c.did c.version c.root c.rev c.prev []
to_bytes (signed c) = commit_bytes c.did c.version c.root c.rev c.prev (sized c.sig)

unfoldable pub read_number : Bytes → Result Bytes (ℕ × Bytes)
read_number [] = err []
read_number (n ∷ s) = ok (n, s)

unfoldable pub read_sized : Bytes → Result Bytes (Bytes × Bytes)
read_sized [] = err []
read_sized (n ∷ s) = if leb n (length s) then ok (take n s, drop n s) else err []

pub read_sized-append : (s rest : Bytes) → read_sized (sized s ++ rest) ≡ ok (s, rest)
unfolding read_sized
read_sized-append s rest =
    ground (arith, length-append s rest, take-length-append s rest, drop-length-append s rest)

unfoldable pub read_sized_option : Bytes → Result Bytes (Option Bytes × Bytes)
read_sized_option [] = err []
read_sized_option (zero ∷ s) = ok (none, s)
read_sized_option (suc n ∷ s) = do (r, rest) ← read_sized s; ok (some r, rest)

pub sized_alone : (s : Bytes) → read_sized (sized s) ≡ ok (s, [])
unfolding read_sized
sized_alone s =
    sym (ap (λ (r : Bytes). read_sized (length s ∷ r)) (append-nil s)) ∙ read_sized-append s []

read_sized_option-append :
    (o : Option Bytes) (rest : Bytes) → read_sized_option (sized_option o ++ rest) ≡ ok (o, rest)
unfolding read_sized_option
read_sized_option-append none rest = refl
read_sized_option-append (some s) rest = rw (read_sized-append s rest) refl

unfoldable pub read_commit : Bytes → Result Bytes (SignedCommit Bytes)
unfolding read_sized read_number read_sized_option
read_commit s = do
  (did, s) ← read_sized s
  (version, s) ← read_number s
  (root, s) ← read_sized s
  (rev, s) ← read_sized s
  (prev, s) ← read_sized_option s
  (sig, s) ← read_sized s
  ok (record { did = did; version = version; root = root; rev = rev; prev = prev; sig = sig })

commit_parts-read : (c : SignedCommit Bytes) → read_commit (to_bytes (signed c)) ≡ ok c
unfolding read_commit to_bytes
commit_parts-read c =
    let end : Bytes = sized c.sig in
    let with_prev = sized_option c.prev ++ end in
    let with_rev = sized c.rev ++ with_prev in
    let with_root = sized c.root ++ with_rev in
    rw
      (
        read_sized-append c.did (c.version ∷ with_root),
        read_sized-append c.root with_rev,
        read_sized-append c.rev with_prev,
        read_sized_option-append c.prev end,
        sized_alone c.sig,
      )
      refl

-- The low form of a signature that is marked as high.
unfoldable pub low : Bytes → Option Bytes
low (suc zero ∷ s) = some (0 ∷ s)
low _ = none

unfoldable pub accepts : Bytes → Bytes → Bytes → Bool
accepts p m [] = false
accepts p m (mark ∷ s) = s =? p ++ m

-- The base64 of the runs keeps its text.
abbrev pub sample_with : (Bytes → Bytes) → Library
sample_with hash = record {
  Cid = Bytes;
  cid_ord = bytes_ord;
  parse_cid = λ s. if length s == 3 then some s else none;
  is_v1 = λ c. true;
  codec = λ c. 0x71;
  hash_code = λ c. 0x12;
  hash_size = λ c. 32;
  cid_string = λ c. c;
  cid_bytes = λ c. c;
  new_v1 = λ c h d. d;
  sha256 = hash;
  base64_decode = λ s. some s;
  to_vec = λ x. ok (to_bytes x);
  from_slice = read_commit;
  SigningKey = Bytes;
  key_from_bytes = λ s. if length s == 1 then some s else none;
  public_key = λ k. k;
  sign = λ k m. 1 ∷ k ++ m;
  normalize_s = low;
  is_public_key = λ p. true;
  is_signature = λ s. true;
  verify_signature = accepts;
}

abbrev pub sample : Library
sample = sample_with (λ s. s)

low_form : (s t : Bytes) → low s ≡ some t → low t ≡ none
unfolding low
low_form [] t h = absurd (ground arith)
low_form (zero ∷ s) t h = absurd (ground arith)
low_form (suc zero ∷ s) t h = ground arith
low_form (suc (suc n) ∷ s) t h = absurd (ground arith)

low_accepts : (p m s t : Bytes) → low s ≡ some t → accepts p m s ≡ true → accepts p m t ≡ true
unfolding low accepts
low_accepts p m [] t h k = absurd (ground arith)
low_accepts p m (zero ∷ s) t h k = absurd (ground arith)
low_accepts p m (suc zero ∷ s) t h k = ground arith
low_accepts p m (suc (suc n) ∷ s) t h k = absurd (ground arith)

cid_for-injective : (a b : Bytes) → cid_for sample a ≡ cid_for sample b → a ≡ b
unfolding cid_for
cid_for-injective a b h = h

pub sample_laws : Laws sample
sample_laws = record {
  injective = cid_for-injective;
  encodes = λ x. (to_bytes x, refl);
  reads_back = λ c bytes e. rw (← ok-injective e) (commit_parts-read c);
  has_public_key = λ k. refl;
  well_formed = λ k m. refl;
  accepts = λ k m. unfold accepts in =?_refl (k ++ m);
  low_form = low_form;
  low_well_formed = λ s t e. refl;
  low_accepts = low_accepts;
}
