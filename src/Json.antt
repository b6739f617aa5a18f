-- ===== src/Json.antt =====
-- `serde_json::Value`: its kinds, and the tests and accessors that the source uses. The entries of an
-- object stand in the order of its map.
use edgewit.Prelude.{
  ℕ, Bool, true, false, Option, none, some, List, [], ◌∷◌, Text, Assoc, leb, if◌then◌else◌, text_eq,
}
use edgewit.Prelude.Numbers.{i64_max}

-- `Number`: a `u64`, a negative `i64` (`negative n` is -(n + 1)), or the bits of an `f64`.
pub data Number : Type 0 where
  unsigned : ℕ → Number
  negative : ℕ → Number
  float : ℕ → Number

mutual
  pub data Value : Type 0 where
    null : Value
    bool : Bool → Value
    number : Number → Value
    string : Text → Value
    array : Items → Value
    object : Entries → Value

  pub data Items : Type 0 where
    no_items : Items
    item : Value → Items → Items

  pub data Entries : Type 0 where
    no_entries : Entries
    entry : Text → Value → Entries → Entries

abbrev pub to_assoc : Entries → Assoc Value
to_assoc no_entries = []
to_assoc (entry k v es) = (k, v) ∷ to_assoc es

abbrev pub from_assoc : Assoc Value → Entries
from_assoc [] = no_entries
from_assoc ((k, v) ∷ m) = entry k v (from_assoc m)

abbrev pub to_list : Items → List Value
to_list no_items = []
to_list (item v vs) = v ∷ to_list vs

abbrev pub is_null : Value → Bool
is_null null = true
is_null _ = false

abbrev pub is_string : Value → Bool
is_string (string s) = true
is_string _ = false

abbrev pub is_boolean : Value → Bool
is_boolean (bool b) = true
is_boolean _ = false

abbrev pub is_number : Value → Bool
is_number (number n) = true
is_number _ = false

abbrev pub is_array : Value → Bool
is_array (array vs) = true
is_array _ = false

abbrev pub is_object : Value → Bool
is_object (object es) = true
is_object _ = false

-- The number fits in an `i64`.
abbrev pub is_i64 : Value → Bool
is_i64 (number (unsigned n)) = leb n i64_max
is_i64 (number (negative n)) = true
is_i64 _ = false

abbrev pub is_u64 : Value → Bool
is_u64 (number (unsigned n)) = true
is_u64 _ = false

abbrev pub as_str : Value → Option Text
as_str (string s) = some s
as_str _ = none

abbrev pub as_object : Value → Option (Assoc Value)
as_object (object es) = some (to_assoc es)
as_object _ = none

abbrev pub as_array : Value → Option (List Value)
as_array (array vs) = some (to_list vs)
as_array _ = none

unfoldable pub find_entry : Text → Entries → Option Value
find_entry k no_entries = none
find_entry k (entry j v es) = if text_eq j k then some v else find_entry k es

-- `value.get(key)`
unfoldable pub get : Value → Text → Option Value
get (object es) k = find_entry k es
get _ k = none
