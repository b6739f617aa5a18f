-- ===== src/Registry/Tests.antt =====
-- A registry of one definition for src/registry.rs, and what the theorems say of it.
use edgewit.Prelude.{
  ℕ, ◌≡◌, refl, true, false, Option, some, List, [], ◌∷◌, ascii, text_eq, insert, contains_key,
  ends_with,
}
use edgewit.Prelude.Attempts.{returns, fails}
use edgewit.Prelude.Numbers.{parse_u64, parse_unsigned, digits, digit}
use edgewit.Schema.Definition.{IndexDefinition}
use edgewit.Schema.Validation.{
  invalid_retention_format, validate_schema, check_retention, is_valid_retention, split_at,
  is_char_boundary, is_unit,
}
use edgewit.Schema.Tests.{index, two_fields}
use edgewit.Registry.Store.{IndexRegistry, new, register, get}
use edgewit.Registry.Loading.{
  DirPath, directory, from_file, load_entries, load_from_dir, is_definition,
}
use edgewit.Registry.Consistency.{IsConsistent, Call, registers, removes, run, run-new-IsConsistent}
use edgewit.Registry.Refinement.{
  Request, register_call, upsert_call, remove_call, get_call, perform_all, promised_all,
  perform_all-promised_all,
}

abbrev logs : IndexDefinition
logs = index two_fields (some (ascii "7d"))

abbrev bad : IndexDefinition
bad = index two_fields (some (ascii "7x"))

abbrev yaml : List ℕ → Option IndexDefinition
yaml content = some logs

logs_valid : validate_schema logs ≡ returns tt
unfolding validate_schema check_retention is_valid_retention split_at is_char_boundary is_unit
    parse_u64 parse_unsigned digits digit text_eq contains_key
logs_valid = refl

bad_invalid : validate_schema bad ≡ fails (invalid_retention_format (ascii "7x"))
unfolding validate_schema check_retention is_valid_retention split_at is_char_boundary is_unit
    parse_u64 parse_unsigned digits digit text_eq contains_key
bad_invalid = refl

new_is_free : new.poisoned ≡ false
unfolding new
new_is_free = refl

abbrev one_index : IndexRegistry
one_index = record { indexes = (ascii "logs", logs) ∷ []; poisoned = false }

abbrev calls : List Call
calls = registers logs ∷ registers bad ∷ removes (ascii "logs") ∷ registers logs ∷ []

run-new-IsConsistent_example : IsConsistent (run yaml calls new)
run-new-IsConsistent_example = run-new-IsConsistent yaml calls

abbrev config : DirPath
config =
    directory
      (some (record { name = some (ascii "a.index.yaml"); is_file = true; content = some [] }) ∷ [])

loads_one : (load_from_dir yaml config new).0 ≡ returns 1
unfolding load_from_dir load_entries is_definition from_file register new insert ends_with
    validate_schema check_retention is_valid_retention split_at is_char_boundary is_unit parse_u64
    parse_unsigned digits digit text_eq contains_key
loads_one = refl

abbrev requests : List Request
requests =
    register_call logs ∷ get_call (ascii "logs") ∷ upsert_call bad ∷ remove_call (ascii "logs") ∷ []

perform_all-promised_all_example :
    ((perform_all requests new).0 ≡ (promised_all requests (get new)).0)
    × (get (perform_all requests new).1 ≡ (promised_all requests (get new)).1)
perform_all-promised_all_example = perform_all-promised_all requests new new_is_free
