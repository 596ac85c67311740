-- ===== src/Json.antt =====
-- `serde_json::Value` and the accessors that the program calls. An object is a list of fields with
-- distinct names, in the order in which its map iterates. A float stands for its 64 bits.
use psky.Prelude.{
  ℕ, suc, ◌^◌, Bool, Option, none, some, Bytes, bytes_ord, ◌=?◌, ltb, if◌then◌else◌, List, [], ◌∷◌,
}
use psky.Prelude.Int.{ℤ, pos, negsuc}

pub data Number : Type 0 where
  integer : ℤ → Number
  float : ℕ → Number

mutual
  pub data Value : Type 0 where
    null : Value
    bool : Bool → Value
    number : Number → Value
    string : Bytes → Value
    array : Values → Value
    object : Fields → Value

  pub data Values : Type 0 where
    nil : Values
    cons : Value → Values → Values

  pub data Fields : Type 0 where
    end : Fields
    field : Bytes → Value → Fields → Fields

abbrev pub to_list : Values → List Value
to_list nil = []
to_list (cons v vs) = v ∷ to_list vs

abbrev pub count : Fields → ℕ
count end = 0
count (field k v fs) = suc (count fs)

unfoldable pub get_field : Bytes → Fields → Option Value
get_field k end = none
get_field k (field j v fs) = if j =? k then some v else get_field k fs

-- `Value::get` with a name: `None` on what is no object.
unfoldable pub get : Bytes → Value → Option Value
unfolding get_field
get k (object fs) = get_field k fs
get k _ = none

unfoldable pub as_str : Value → Option Bytes
as_str (string s) = some s
as_str _ = none

unfoldable pub as_array : Value → Option (List Value)
as_array (array vs) = some (to_list vs)
as_array _ = none

unfoldable pub as_object : Value → Option Fields
as_object (object fs) = some fs
as_object _ = none

-- A number that was read as a `u64` may be too large for an `i64`.
unfoldable pub as_i64 : Number → Option ℤ
as_i64 (integer (pos n)) = if ltb n (2 ^ 63) then some (pos n) else none
as_i64 (integer (negsuc n)) = if ltb n (2 ^ 63) then some (negsuc n) else none
as_i64 (float bits) = none

unfoldable pub as_u64 : Value → Option ℕ
as_u64 (number (integer (pos n))) = if ltb n (2 ^ 64) then some n else none
as_u64 _ = none
