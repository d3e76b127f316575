-- ===== src/Json.antt =====
-- `serde_json::Value` by its public constructors, with the accessors that the program calls.
-- Parsing and printing are parameters of their callers. A `float` is a number that is no integer
-- literal, by its text. `Fields` is a map in key order, as `serde_json::Map` iterates.
pub mod Insert
use Prim.Native.Nat.{Ordering}
use Prim.Native.String
use Prim.Native.String.{String}
use token_weasel.Prelude.{Bool, true, false, Option, none, some, if◌then◌else◌}
use token_weasel.Prelude.Int.{ℤ, is_i64}
use token_weasel.Prelude.Text.{◌=ₛ◌}

mutual
  pub data Value : Type 0 where
    null : Value
    bool : Bool → Value
    num : ℤ → Value
    float : String → Value
    str : String → Value
    obj : Fields → Value
    arr : Items → Value

  pub data Fields : Type 0 where
    end : Fields
    field : String → Value → Fields → Fields

  pub data Items : Type 0 where
    nil : Items
    cons : Value → Items → Items

-- `Map::get`
unfoldable pub field_get : String → Fields → Option Value
field_get k end = none
field_get k (field j v fs) = if j =ₛ k then some v else field_get k fs

-- `Map::insert`: an old key gets the new value, a new key its place in the key order.
unfoldable pub field_insert : String → Value → Fields → Fields
field_insert k v end = field k v end
field_insert k v (field j w fs) = elim (String.compare k j) [
  | Ordering.lt ↦ field k v (field j w fs)
  | Ordering.eq ↦ field k v fs
  | Ordering.gt ↦ field j w (field_insert k v fs)
]

-- `Value::get` with a key
unfoldable pub get : String → Value → Option Value
unfolding field_get
get k (obj fs) = field_get k fs
get k _ = none

unfoldable pub as_i64 : Value → Option ℤ
as_i64 (num z) = if is_i64 z then some z else none
as_i64 _ = none

unfoldable pub as_str : Value → Option String
as_str (str s) = some s
as_str _ = none

unfoldable pub as_bool : Value → Option Bool
as_bool (bool b) = some b
as_bool _ = none

unfoldable pub as_array : Value → Option Items
as_array (arr xs) = some xs
as_array _ = none

unfoldable pub as_object : Value → Option Fields
as_object (obj fs) = some fs
as_object _ = none

unfoldable pub is_null : Value → Bool
is_null null = true
is_null _ = false
