-- ===== src/Repo/Library.antt =====
-- What crates/psky-repo takes from other crates: content identifiers, SHA-256, base64, DAG-CBOR and
-- ECDSA. All of it is a parameter of the model.
use psky.Prelude.{ℕ, Bool, List, Option, Bytes, Ord, Result}
use psky.Prelude.Int.{ℤ}

-- `ipld_core::Ipld`; a map is a `BTreeMap`.
mutual
  pub data Ipld (Cid : Type 0) : Type 0 where
    null : Ipld Cid
    bool : Bool → Ipld Cid
    integer : ℤ → Ipld Cid
    string : Bytes → Ipld Cid
    bytes : Bytes → Ipld Cid
    link : Cid → Ipld Cid
    list : Items Cid → Ipld Cid
    map : Entries Cid → Ipld Cid

  pub data Items (Cid : Type 0) : Type 0 where
    nil : Items Cid
    cons : Ipld Cid → Items Cid → Items Cid

  pub data Entries (Cid : Type 0) : Type 0 where
    end : Entries Cid
    entry : Bytes → Ipld Cid → Entries Cid → Entries Cid

-- An entry of a tree node: the length of the prefix that it shares with the key before it, the rest
-- of its key, its value, and the subtree of the keys that follow.
pub record Entry (Cid : Type 0) : Type 0 where
  pub p : ℕ
  pub k : Bytes
  pub v : Cid
  pub t : Option Cid

pub record Node (Cid : Type 0) : Type 0 where
  pub l : Option Cid
  pub e : List (Entry Cid)

-- `root` is the field `data`, a word that the notation reserves.
pub record UnsignedCommit (Cid : Type 0) : Type 0 where
  pub did : Bytes
  pub version : ℕ
  pub root : Cid
  pub rev : Bytes
  pub prev : Option Cid

pub record SignedCommit (Cid : Type 0) : Type 0 where
  pub did : Bytes
  pub version : ℕ
  pub root : Cid
  pub rev : Bytes
  pub prev : Option Cid
  pub sig : Bytes

pub record Header (Cid : Type 0) : Type 0 where
  pub roots : List Cid
  pub version : ℕ

-- What the crate serializes.
pub data Serialize (Cid : Type 0) : Type 0 where
  record_value : Ipld Cid → Serialize Cid
  node : Node Cid → Serialize Cid
  header : Header Cid → Serialize Cid
  unsigned : UnsignedCommit Cid → Serialize Cid
  signed : SignedCommit Cid → Serialize Cid

pub record Library : Type 1 where
  pub Cid : Type 0
  pub cid_ord : Ord Cid
  pub parse_cid : Bytes → Option Cid
  pub is_v1 : Cid → Bool
  pub codec : Cid → ℕ
  pub hash_code : Cid → ℕ
  pub hash_size : Cid → ℕ
  pub cid_string : Cid → Bytes
  pub cid_bytes : Cid → Bytes
  -- `Cid::new_v1` of a codec and a multihash with its code.
  pub new_v1 : ℕ → ℕ → Bytes → Cid
  pub sha256 : Bytes → Bytes
  -- The engine `ATPROTO_BASE64`.
  pub base64_decode : Bytes → Option Bytes
  pub to_vec : Serialize Cid → Result Bytes Bytes
  pub from_slice : Bytes → Result Bytes (SignedCommit Cid)
  pub SigningKey : Type 0
  pub key_from_bytes : Bytes → Option SigningKey
  pub public_key : SigningKey → Bytes
  -- A signature, and its low-S form where it is not low already.
  pub sign : SigningKey → Bytes → Bytes
  pub normalize_s : Bytes → Option Bytes
  pub is_public_key : Bytes → Bool
  pub is_signature : Bytes → Bool
  pub verify_signature : Bytes → Bytes → Bytes → Bool
