-- ===== src/Repo/Error.antt =====
-- `enum Error` of crates/psky-repo/src/lib.rs. The texts of CBOR errors come from another library.
use Prim.Native.String.{String}
use psky.Prelude.{Bytes}

pub data Error : Type 0 where
  invalid_path : Bytes → Error
  invalid_metadata : String → Error
  invalid_record : String → Error
  limit : String → Error
  cbor : Bytes → Error
  signature : Error
  verification : String → Error
