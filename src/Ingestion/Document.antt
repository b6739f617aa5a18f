-- ===== src/Ingestion/Document.antt =====
-- `validate_and_process_document` of src/ingestion/validation.rs.
use edgewit.Prelude.{
  Bool, ◌&&◌, ◌||◌, not, Option, none, some, List, [], ◌∷◌, Text, Assoc, ascii, text_eq, lookup,
  insert, remove, contains_key, keys, if◌then◌else◌, Result, ok, err, ◌>>=◌,
}
use edgewit.Json.{
  Value, object, to_assoc, from_assoc, is_null, is_string, is_boolean, is_number, is_array, is_i64,
  is_u64,
}
use edgewit.Schema.Definition.{
  IndexDefinition, FieldDefinition, FieldType, SchemaMode, strict, drop_unmapped, dynamic,
}

pub data IngestionValidationError : Type 0 where
  not_an_object : IngestionValidationError
  unknown_field : Text → IngestionValidationError
  missing_required_field : Text → IngestionValidationError
  type_mismatch : Text → FieldType → IngestionValidationError

abbrev pub Checked : Type 0 → Type 0
Checked = Result IngestionValidationError

-- `!def.fields.contains_key(key) && key != "_source"`
unfoldable pub is_unmapped : IndexDefinition → Text → Bool
is_unmapped def key = not (contains_key key def.fields) && not (text_eq key (ascii "_source"))

abbrev pub by_mode : SchemaMode → Text → Checked (List Text) → Checked (List Text)
by_mode strict key rest = err (unknown_field key)
by_mode drop_unmapped key rest = do keys_to_remove ← rest; ok (key ∷ keys_to_remove)
by_mode dynamic key rest = rest

-- The loop over the keys: the keys to remove, or the first key that is not allowed.
unfoldable pub scan_keys : IndexDefinition → List Text → Checked (List Text)
scan_keys def [] = ok []
scan_keys def (key ∷ rest) =
    let found = scan_keys def rest in
    if is_unmapped def key then by_mode def.mode key found else found

unfoldable pub remove_keys : List Text → Assoc Value → Assoc Value
remove_keys [] obj = obj
remove_keys (key ∷ rest) obj = remove_keys rest (remove key obj)

-- The match on the field's type.
unfoldable pub is_valid : FieldType → Value → Bool
is_valid FieldType.text val = is_string val
is_valid FieldType.keyword val = is_string val
is_valid FieldType.integer val = is_i64 val || is_u64 val
is_valid FieldType.float val = is_number val
is_valid FieldType.boolean val = is_boolean val
is_valid FieldType.datetime val = is_string val || is_number val
is_valid FieldType.bytes val = is_string val || is_array val

abbrev pub check_present : Text → FieldDefinition → Value → Assoc Value → Checked (Assoc Value)
check_present field_name field_def val obj =
    if is_null val
    then (if field_def.optional then ok obj else err (missing_required_field field_name))
    else if is_valid field_def.field_type val
    then ok obj
    else err (type_mismatch field_name field_def.field_type)

abbrev pub fill_missing :
    Text → FieldDefinition → Option Value → Assoc Value → Checked (Assoc Value)
fill_missing field_name field_def (some default_val) obj = ok (insert field_name default_val obj)
fill_missing field_name field_def none obj =
    if field_def.optional then ok obj else err (missing_required_field field_name)

abbrev pub check_value : Text → FieldDefinition → Option Value → Assoc Value → Checked (Assoc Value)
check_value field_name field_def (some val) obj = check_present field_name field_def val obj
check_value field_name field_def none obj = fill_missing field_name field_def field_def.default obj

-- The body of the loop over the fields.
unfoldable pub check_field : Text → FieldDefinition → Assoc Value → Checked (Assoc Value)
check_field field_name field_def obj = check_value field_name field_def (lookup field_name obj) obj

unfoldable pub check_fields : Assoc FieldDefinition → Assoc Value → Checked (Assoc Value)
check_fields [] obj = ok obj
check_fields ((field_name, field_def) ∷ fields) obj = do
  obj' ← check_field field_name field_def obj
  check_fields fields obj'

-- From the map of the document on.
unfoldable pub process_object : IndexDefinition → Assoc Value → Checked (Assoc Value)
process_object def obj = do
  keys_to_remove ← scan_keys def (keys obj)
  check_fields def.fields (remove_keys keys_to_remove obj)

unfoldable pub validate_and_process_document : IndexDefinition → Value → Checked Value
validate_and_process_document def (object es) = do
  obj ← process_object def (to_assoc es)
  ok (object (from_assoc obj))
validate_and_process_document def _ = err not_an_object
