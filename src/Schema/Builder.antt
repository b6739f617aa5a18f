-- ===== src/Schema/Builder.antt =====
-- `build_schema` of src/schema/builder.rs: the calls it makes on the builder of the search library,
-- in order. The library's options are the setter calls that made them.
use edgewit.Prelude.{
  Bool, true, false, ltb, if◌then◌else◌, List, [], ◌∷◌, ◌++◌, map, Text, Assoc, ascii,
}
use edgewit.Schema.Definition.{
  SchemaMode, strict, drop_unmapped, dynamic, FieldType, FieldDefinition, IndexDefinition,
}

pub data IndexRecordOption : Type 0 where
  basic with_freqs_and_positions : IndexRecordOption

pub data Setter : Type 0 where
  set_indexing_options : (tokenizer : Text) (index_option : IndexRecordOption) → Setter
  set_indexed set_stored set_fast : Setter

-- The `add_…_field` functions of the builder.
pub data Kind : Type 0 where
  text date i64 f64 bool bytes json : Kind

pub record AddField : Type 0 where
  pub kind : Kind
  pub name : Text
  pub options : List Setter

abbrev pub when : Bool → Setter → List Setter
when true setter = setter ∷ []
when false setter = []

-- The three tests in front of each `add_…_field`.
abbrev pub setters : Setter → FieldDefinition → List Setter
setters indexing field_def =
    when field_def.indexed indexing
    ++ (when field_def.stored set_stored ++ when field_def.fast set_fast)

abbrev pub default_indexing : Setter
default_indexing = set_indexing_options (ascii "default") with_freqs_and_positions

-- The match on the type of a field.
unfoldable pub add_field : FieldType → Text → FieldDefinition → AddField
add_field FieldType.text name fd = record {
  kind = Kind.text;
  name = name;
  options = setters default_indexing fd;
}
add_field FieldType.keyword name fd = record {
  kind = Kind.text;
  name = name;
  options = setters (set_indexing_options (ascii "raw") basic) fd;
}
add_field FieldType.datetime name fd = record {
  kind = date;
  name = name;
  options = setters set_indexed fd;
}
add_field FieldType.integer name fd = record {
  kind = i64;
  name = name;
  options = setters set_indexed fd;
}
add_field FieldType.float name fd = record {
  kind = f64;
  name = name;
  options = setters set_indexed fd;
}
add_field FieldType.boolean name fd = record {
  kind = bool;
  name = name;
  options = setters set_indexed fd;
}
add_field FieldType.bytes name fd = record {
  kind = Kind.bytes;
  name = name;
  options = setters set_indexed fd;
}

-- The order of `String`: that of the bytes.
unfoldable pub text_leb : Text → Text → Bool
text_leb [] b = true
text_leb (x ∷ a) [] = false
text_leb (x ∷ a) (y ∷ b) = if ltb x y then true else if ltb y x then false else text_leb a b

unfoldable pub insert_by_name :
    Text × FieldDefinition → Assoc FieldDefinition → Assoc FieldDefinition
insert_by_name e [] = e ∷ []
insert_by_name e (f ∷ m) = if text_leb e.0 f.0 then e ∷ f ∷ m else f ∷ insert_by_name e m

-- `fields.sort_by_key(|(name, _)| *name)`
unfoldable pub sort_by_name : Assoc FieldDefinition → Assoc FieldDefinition
sort_by_name [] = []
sort_by_name (e ∷ m) = insert_by_name e (sort_by_name m)

abbrev pub source_field : AddField
source_field = record { kind = json; name = ascii "_source"; options = set_stored ∷ [] }

abbrev pub dynamic_field : SchemaMode → List AddField
dynamic_field dynamic =
    record {
      kind = Kind.text;
      name = ascii "_dynamic";
      options = default_indexing ∷ set_stored ∷ [];
    }
    ∷ []
dynamic_field strict = []
dynamic_field drop_unmapped = []

unfoldable pub build_schema : IndexDefinition → List AddField
build_schema definition =
    map (λ e. add_field e.1.field_type e.0 e.1) (sort_by_name definition.fields)
    ++ (source_field ∷ dynamic_field definition.mode)
