-- ===== src/Repo/Ipld/Bounds.antt =====
-- How large, how deep and how safe a converted record is.
use psky.Prelude.{
  ℕ, suc, refl, Bool-cases, ok-injective, ◌+◌, ◌^◌, ◌≤◌, ◌<◌, ◌≡◌, ap, not, not-false, =?_iff, ltb,
  ◌==◌, ok_or, on_ok, on_pass, inl, inr, true, some, Bytes, ok, >>=-eq-ok, arith, max, length,
  Option-cases, bytes_ord,
}
use mathlib.Core.Path.{subst}
use psky.Prelude.Int.{ℤ, pos, negsuc}
use psky.Prelude.Text.{codes}
use psky.Json.{Value, Values, Fields, Number, as_i64, get_field, count, as_str}
use psky.Repo.Library.{Library, Ipld, Items, Entries, entry}
use psky.Repo.Ipld.{
  enter, spend, charge, safe_integer, insert_entry, convert_number, link_supported, convert_link,
  convert_bytes, json_to_ipld, convert_items, convert_fields, max_record_depth, max_record_bytes,
}

-- Values, and the bytes of texts, byte strings, names and printed links.
unfoldable mutual
  pub size : {Cid : Type 0} → (Cid → Bytes) → Ipld Cid → ℕ
  size text Ipld.null = 1
  size text (Ipld.bool b) = 1
  size text (Ipld.integer i) = 1
  size text (Ipld.string s) = 1 + length s
  size text (Ipld.bytes s) = 1 + length s
  size text (Ipld.link c) = 1 + length (text c)
  size text (Ipld.list xs) = 1 + size_items text xs
  size text (Ipld.map m) = 1 + size_entries text m

  pub size_items : {Cid : Type 0} → (Cid → Bytes) → Items Cid → ℕ
  size_items text Items.nil = 0
  size_items text (Items.cons i xs) = size text i + size_items text xs

  pub size_entries : {Cid : Type 0} → (Cid → Bytes) → Entries Cid → ℕ
  size_entries text Entries.end = 0
  size_entries text (entry k i m) = length k + size text i + size_entries text m

-- The lists and maps around the innermost value.
unfoldable mutual
  pub depth : {Cid : Type 0} → Ipld Cid → ℕ
  depth Ipld.null = 0
  depth (Ipld.bool b) = 0
  depth (Ipld.integer i) = 0
  depth (Ipld.string s) = 0
  depth (Ipld.bytes s) = 0
  depth (Ipld.link c) = 0
  depth (Ipld.list xs) = depth_items xs
  depth (Ipld.map m) = depth_entries m

  pub depth_items : {Cid : Type 0} → Items Cid → ℕ
  depth_items Items.nil = 0
  depth_items (Items.cons i xs) = max (suc (depth i)) (depth_items xs)

  pub depth_entries : {Cid : Type 0} → Entries Cid → ℕ
  depth_entries Entries.end = 0
  depth_entries (entry k i m) = max (suc (depth i)) (depth_entries m)

-- From -(2^53 - 1) to 2^53 - 1; `negsuc n` is -(n + 1).
abbrev pub InSafeRange : ℤ → Type 0
InSafeRange (pos n) = n < 2 ^ 53
InSafeRange (negsuc n) = n + 1 < 2 ^ 53

safe_integer-InSafeRange : (i : ℤ) → safe_integer i ≡ true → InSafeRange i
unfolding safe_integer
safe_integer-InSafeRange (pos n) h = ground (arith, h)
safe_integer-InSafeRange (negsuc n) h = ground (arith, h)

-- Every integer is in JavaScript's safe range.
unfoldable mutual
  pub IsSafe : {Cid : Type 0} → Ipld Cid → Type 0
  IsSafe Ipld.null = Unit
  IsSafe (Ipld.bool b) = Unit
  IsSafe (Ipld.integer i) = InSafeRange i
  IsSafe (Ipld.string s) = Unit
  IsSafe (Ipld.bytes s) = Unit
  IsSafe (Ipld.link c) = Unit
  IsSafe (Ipld.list xs) = IsSafeItems xs
  IsSafe (Ipld.map m) = IsSafeEntries m

  pub IsSafeItems : {Cid : Type 0} → Items Cid → Type 0
  IsSafeItems Items.nil = Unit
  IsSafeItems (Items.cons i xs) = IsSafe i × IsSafeItems xs

  pub IsSafeEntries : {Cid : Type 0} → Entries Cid → Type 0
  IsSafeEntries Entries.end = Unit
  IsSafeEntries (entry k i m) = IsSafe i × IsSafeEntries m

module _ {Cid : Type 0} where
  insert_entry-size :
      (text : Cid → Bytes) (k : Bytes) (i : Ipld Cid) (m : Entries Cid)
      → size_entries text (insert_entry k i m) ≤ length k + size text i + size_entries text m
  unfolding insert_entry size
  insert_entry-size text k i Entries.end = omega arith
  insert_entry-size text k i (entry j w m) = ground (arith, insert_entry-size text k i m)

  insert_entry-depth :
      (k : Bytes) (i : Ipld Cid) (m : Entries Cid)
      → depth_entries (insert_entry k i m) ≤ max (suc (depth i)) (depth_entries m)
  unfolding insert_entry depth
  insert_entry-depth k i Entries.end = omega arith
  insert_entry-depth k i (entry j w m) = ground (arith, insert_entry-depth k i m)

  insert_entry-IsSafe :
      (k : Bytes) (i : Ipld Cid) (m : Entries Cid)
      → IsSafe i
      → IsSafeEntries m
      → IsSafeEntries (insert_entry k i m)
  unfolding insert_entry IsSafe
  insert_entry-IsSafe k i Entries.end s h = (s, tt)
  insert_entry-IsSafe k i (entry j w m) s h = ground (arith, insert_entry-IsSafe k i m s h.1)

  -- What a successful conversion at a depth, from a budget, to what is left of it, guarantees.
  pub record IsBounded (text : Cid → Bytes) (d budget left : ℕ) (i : Ipld Cid) : Type 0 where
    pub fits : size text i + left ≤ budget
    pub shallow : depth i + d ≤ max_record_depth
    pub safe : IsSafe i

  record AreBounded (text : Cid → Bytes) (d budget left : ℕ) (xs : Items Cid) : Type 0 where
    fits : size_items text xs + left ≤ budget
    shallow : depth_items xs + d ≤ suc max_record_depth
    safe : IsSafeItems xs

  record ArePresent (text : Cid → Bytes) (d budget left : ℕ) (m : Entries Cid) : Type 0 where
    fits : size_entries text m + left ≤ budget
    shallow : depth_entries m + d ≤ suc max_record_depth
    safe : IsSafeEntries m

enter-bounds :
    (v : Value) (d budget left : ℕ)
    → enter v d budget ≡ ok left
    → (d ≤ max_record_depth) × (charge v + left ≤ budget)
unfolding enter
enter-bounds v d budget left h = ground arith

module _ (lib : Library)
    (shrinks : (s t : Bytes) → lib.base64_decode s ≡ some t → length t ≤ length s) where
  link_supported-cid_string :
      (cid : lib.Cid) (encoded : Bytes)
      → link_supported lib cid encoded ≡ true
      → lib.cid_string cid ≡ encoded
  unfolding link_supported
  link_supported-cid_string cid encoded h =
      (=?_iff (lib.cid_string cid) encoded).0 (ground (arith, h))

  convert_link-IsBounded :
      (fs : Fields) (v : Value) (d budget left : ℕ) (i : Ipld lib.Cid)
      → d ≤ max_record_depth
      → convert_link lib fs v budget ≡ ok (i, left)
      → IsBounded lib.cid_string d (suc budget) left i
  unfolding convert_link spend size depth IsSafe
  convert_link-IsBounded fs v d budget left i h e = on_pass (not (count fs == 1)) _ _ e λ alone e.
      on_ok (ok_or (as_str v) _) _ e λ encoded found e.
        on_pass (ltb 128 (length encoded)) _ _ e λ short e.
          on_ok (spend budget (length encoded)) _ e λ rest spent e.
            on_ok (ok_or (lib.parse_cid encoded) _) _ e λ cid parsed e.
              on_pass (not (link_supported lib cid encoded)) _ _ e λ supported e.
                let printed = link_supported-cid_string cid encoded (not-false _ supported) in
                ground (arith, spent, ap length printed)

  convert_bytes-IsBounded :
      (fs : Fields) (v : Value) (d budget left : ℕ) (i : Ipld lib.Cid)
      → d ≤ max_record_depth
      → convert_bytes lib fs v budget ≡ ok (i, left)
      → IsBounded lib.cid_string d (suc budget) left i
  unfolding convert_bytes size depth IsSafe
  convert_bytes-IsBounded fs v d budget left i h e = grind (arith, shrinks)

  convert_number_sound :
      (n : Number) (i : Ipld lib.Cid)
      → convert_number lib n ≡ ok i
      → (size lib.cid_string i ≡ 1) × (depth i ≡ 0) × IsSafe i
  unfolding convert_number size depth IsSafe
  convert_number_sound n i h = elim (Option-cases (as_i64 n)) [
    | inl e ↦ absurd (cc (rw (e, convert_number) at h))
    | inr (z, e) ↦ elim (Bool-cases (safe_integer z)) [
      | inl safe ↦
          subst (λ j. (size lib.cid_string j ≡ 1) × (depth j ≡ 0) × IsSafe j)
            (ok-injective (rw (e, safe, convert_number) at h))
            (refl, refl, safe_integer-InSafeRange z safe)
      | inr unsafe ↦ absurd (cc (rw (e, unsafe, convert_number) at h))
    ]
  ]

  empty_map :
      (d b : ℕ)
      → d ≤ max_record_depth
      → ArePresent {Cid = lib.Cid} lib.cid_string (d + 1) b b Entries.end
  unfolding size depth IsSafe
  empty_map d b h = omega arith

  mutual
    unfolding json_to_ipld size depth IsSafe convert_number spend

    json_to_ipld-bounds :
        (v : Value) (d budget left : ℕ) (i : Ipld lib.Cid)
        → json_to_ipld lib v d budget ≡ ok (i, left)
        → IsBounded lib.cid_string d budget left i
    json_to_ipld-bounds Value.null d budget left i h =
        ground (arith, enter-bounds Value.null d budget left)
    json_to_ipld-bounds (Value.bool b) d budget left i h =
        ground (arith, enter-bounds (Value.bool b) d budget left)
    json_to_ipld-bounds (Value.string s) d budget left i h =
        ground (arith, enter-bounds (Value.string s) d budget left)
    json_to_ipld-bounds (Value.number n) d budget left i h =
        let (b, e, h') = >>=-eq-ok (enter (Value.number n) d budget) _ h in
        let (j, e', h'') = >>=-eq-ok (convert_number lib n) _ h' in
        let (one, flat, safe) = convert_number_sound n j e' in
        ground (arith, enter-bounds (Value.number n) d budget b e, one, flat, safe)
    json_to_ipld-bounds (Value.array vs) d budget left i h =
        let (b, e, h') = >>=-eq-ok (enter (Value.array vs) d budget) _ h in
        let ((xs, rest), e', h'') = >>=-eq-ok (convert_items lib vs (d + 1) b) _ h' in
        ground (
          arith,
          enter-bounds (Value.array vs) d budget b e,
          convert_items-bounds vs (d + 1) b rest xs,
        )
    json_to_ipld-bounds (Value.object fs) d budget left i h =
        let (b, e, h') = >>=-eq-ok (enter (Value.object fs) d budget) _ h in
        let room = enter-bounds (Value.object fs) d budget b e in
        elim (Option-cases (get_field (codes "$link") fs)) [
          | inr (v, p) ↦ ground (arith, convert_link-IsBounded fs v d b left i)
          | inl p ↦ elim (Option-cases (get_field (codes "$bytes") fs)) [
            | inr (v, q) ↦ ground (arith, convert_bytes-IsBounded fs v d b left i)
            | inl q ↦
                let ((m, rest), e', h'') =
                  >>=-eq-ok (convert_fields lib fs (d + 1) b Entries.end) _ (rw (p, q) at h') in
                ground (
                  arith,
                  convert_fields-bounds fs (d + 1) b b rest Entries.end m (empty_map d b (room.0)),
                )
          ]
        ]

    convert_items-bounds :
        (vs : Values) (d budget left : ℕ) (xs : Items lib.Cid)
        → d ≤ suc max_record_depth
        → convert_items lib vs d budget ≡ ok (xs, left)
        → AreBounded lib.cid_string d budget left xs
    convert_items-bounds Values.nil d budget left xs k h = ground arith
    convert_items-bounds (Values.cons v vs) d budget left xs k h =
        let ((j, b), e, h') = >>=-eq-ok (json_to_ipld lib v d budget) _ h in
        let ((ys, rest), e', h'') = >>=-eq-ok (convert_items lib vs d b) _ h' in
        ground (arith, json_to_ipld-bounds v d budget b j e, convert_items-bounds vs d b rest ys)

    convert_fields-bounds :
        (fs : Fields) (d start budget left : ℕ) (m n : Entries lib.Cid)
        → ArePresent lib.cid_string d start budget m
        → convert_fields lib fs d budget m ≡ ok (n, left)
        → ArePresent lib.cid_string d start left n
    convert_fields-bounds Fields.end d start budget left m n k h = ground arith
    convert_fields-bounds (Fields.field key v fs) d start budget left m n k h =
        let (b, e, h') = >>=-eq-ok (spend budget (length key)) _ h in
        let ((j, rest), e', h'') = >>=-eq-ok (json_to_ipld lib v d b) _ h' in
        let added : ArePresent lib.cid_string d start rest (insert_entry key j m) = ground (
          arith,
          json_to_ipld-bounds v d b rest j e',
          insert_entry-size lib.cid_string key j m,
          insert_entry-depth key j m,
          insert_entry-IsSafe key j m,
        ) in
        convert_fields-bounds fs d start rest left (insert_entry key j m) n added h''

  -- If base64 decoding does not lengthen a text, a record that is converted within the budget
  -- `max_record_bytes` has at most 1,000,000 values and bytes of texts, byte strings, names and
  -- printed links, with what is left of the budget, no more than 64 lists and maps around a value,
  -- and integers between -(2^53 - 1) and 2^53 - 1 only.
  pub json_to_ipld-IsBounded :
      (v : Value) (left : ℕ) (i : Ipld lib.Cid)
      → json_to_ipld lib v 0 max_record_bytes ≡ ok (i, left)
      → (size lib.cid_string i + left ≤ 1_000_000) × (depth i ≤ 64) × IsSafe i
  json_to_ipld-IsBounded v left i h =
      let b = json_to_ipld-bounds v 0 max_record_bytes left i h in
      (b.fits, omega (arith, b.shallow), b.safe)
