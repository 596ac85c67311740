-- ===== src/Repo/Car.antt =====
-- crates/psky-repo/src/car.rs: the CARv1 export of a set of blocks.
pub mod Varint
pub mod Frames
use Prim.Native.Nat.{bit_and, bit_or}
use psky.Prelude.{
  ℕ, zero, suc, ◌+◌, ◌/◌, ◌%◌, Bool, not, Option, none, some, Bytes, Ord, Result, ok, err, ◌>>=◌,
  ok_or, List, [], ◌∷◌, ◌++◌, leb, if◌then◌else◌, length, ◌=?◌,
}
use psky.Prelude.Sorted
use psky.Prelude.Sorted.{Map}
use psky.Repo.Error.{Error, verification}
use psky.Repo.Library.{Library, Serialize, header}
use psky.Repo.Records.{encode}
use psky.Repo.Mst.{Blocks}

-- `(n as u8 & 0x7f) | 0x80`
unfoldable pub continued : ℕ → ℕ
continued n = bit_or (bit_and (n % 256) 0x7f) 0x80

-- `while n >= 128 { ...; n >>= 7 }`; a round for each seven bits, so `suc n` rounds are enough.
unfoldable pub varint_loop : ℕ → ℕ → Bytes → Bytes
varint_loop zero n out = out
varint_loop (suc fuel) n out =
    let more = varint_loop fuel (n / 128) (out ++ continued n ∷ []) in
    if leb 128 n then more else out ++ n % 256 ∷ []

unfoldable pub varint : ℕ → Bytes → Bytes
unfolding varint_loop
varint n out = varint_loop (suc n) n out

module _ (lib : Library) where
  open lib use {Cid, cid_bytes}

  instance abbrev order : Ord Cid
  order = lib.cid_ord

  unfoldable pub block : Cid → Bytes → Bytes → Bytes
  block cid bytes out =
      varint (length (cid_bytes cid) + length bytes) out ++ (cid_bytes cid ++ bytes)

  -- The loop over all blocks but the root.
  unfoldable pub other_blocks : Cid → Blocks lib → Bytes → Bytes
  other_blocks root [] out = out
  other_blocks root ((cid, bytes) ∷ blocks) out =
      other_blocks root blocks (if not (cid =? root) then block cid bytes out else out)

  unfoldable pub export : Cid → Blocks lib → Result Error Bytes
  export root blocks = do
    head ← encode lib (header (record { roots = root ∷ []; version = 1 }))
    let out = varint (length head) [] ++ head
    root_bytes ← ok_or (Sorted.get root blocks) (verification "missing CAR root")
    ok (other_blocks root blocks (block root root_bytes out))
