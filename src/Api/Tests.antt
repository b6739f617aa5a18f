-- ===== src/Api/Tests.antt =====
-- Requests to the handlers of src/api, and what the theorems say of them.
use edgewit.Prelude.{
  ap, sym, ℕ, ◌≡◌, refl, true, false, Option, some, List, [], ◌∷◌, ascii, text_eq, lookup,
  contains_key,
}
use mathlib.Core.Option.{some-injective}
use edgewit.Prelude.Numbers.{parse_u64, parse_unsigned, digits, digit}
use edgewit.Schema.Definition.{IndexDefinition}
use edgewit.Schema.Validation.{
  validate_schema, check_retention, is_valid_retention, split_at, is_char_boundary, is_unit,
}
use edgewit.Schema.Tests.{index, two_fields}
use edgewit.Registry.Store.{new, get, upsert, remove}
use edgewit.Registry.Loading.{directory, load_from_dir}
use edgewit.Api.Indexes.{
  AppState, Disk, complete, status, renamed, create_index_handler, delete_index_handler,
}
use edgewit.Api.Persistence.{entry_of, create_index_handler_persists}
use edgewit.Api.Managing.{
  IsStored, IsWiped, create_index_handler-IsStored, delete_index_handler-IsWiped,
}

abbrev disk : Disk
disk = record { create_dir_all = true; write = complete; remove_file = true; remove_dir_all = true }

abbrev empty_state : AppState
empty_state = record {
  registry = record { indexes = []; poisoned = false };
  indexes_dir = record { files = []; data_dirs = [] };
}

abbrev to_yaml : IndexDefinition → Option (List ℕ)
to_yaml d = some d.name

abbrev payload : IndexDefinition
payload = index two_fields (some (ascii "7d"))

abbrev stored_state : AppState
stored_state = (create_index_handler to_yaml true disk (ascii "web") payload empty_state).1

stored_one :
    (create_index_handler to_yaml true disk (ascii "web") payload empty_state).0 ≡ status 200
unfolding create_index_handler upsert validate_schema check_retention is_valid_retention split_at
    is_char_boundary is_unit parse_u64 parse_unsigned digits digit text_eq contains_key
stored_one = refl

create_index_handler-IsStored_example :
    IsStored (some (ascii "web")) (ascii "web") (renamed (ascii "web") payload) stored_state
create_index_handler-IsStored_example =
    create_index_handler-IsStored to_yaml true disk (ascii "web") payload empty_state stored_one

abbrev one_index : AppState
one_index = record {
  registry = record { indexes = (ascii "web", payload) ∷ []; poisoned = false };
  indexes_dir = record {
    files = (ascii "web.index.yaml", []) ∷ [];
    data_dirs = (ascii "web", tt) ∷ [];
  };
}

wiped_one : (delete_index_handler true disk (ascii "web") one_index).0 ≡ status 200
unfolding delete_index_handler remove lookup text_eq
wiped_one = refl

delete_index_handler-IsWiped_example :
    IsWiped disk (ascii "web") (delete_index_handler true disk (ascii "web") one_index).1
delete_index_handler-IsWiped_example =
    delete_index_handler-IsWiped true disk (ascii "web") one_index wiped_one

abbrev from_yaml : List ℕ → Option IndexDefinition
from_yaml content = some (renamed content payload)

read_back :
    (c : List ℕ)
    → to_yaml (renamed (ascii "web") payload) ≡ some c
    → from_yaml c ≡ some (renamed (ascii "web") payload)
read_back c e = ap from_yaml (sym (some-injective _ _ e))

create_index_handler_persists_example :
    get
      (load_from_dir from_yaml
        (directory (
          some (
            entry_of (ascii "web") (lookup (ascii "web.index.yaml") stored_state.indexes_dir.files))
          ∷ []))
        new).1
      (ascii "web")
    ≡ some (renamed (ascii "web") payload)
create_index_handler_persists_example =
    create_index_handler_persists from_yaml to_yaml true disk (ascii "web") payload empty_state
      read_back stored_one
