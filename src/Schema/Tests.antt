-- ===== src/Schema/Tests.antt =====
-- Small definitions for src/schema, and what the theorems say of them.
use edgewit.Prelude.{
  ◌+◌, ◌≡◌, ◌↔◌, refl, true, false, Option, none, some, [], ◌∷◌, ◌++◌, Text, Assoc, ascii, text_eq,
  text_eq_iff, Bool-cases, inl, inr, lookup, contains_key, arith, HasUniqueKeys,
}
use mathlib.Core.Path.{subst}
use edgewit.Prelude.Attempts.{returns, panics}
use edgewit.Schema.Definition.{
  dynamic, PartitionStrategy, zstd, FieldType, FieldDefinition, IndexDefinition,
}
use edgewit.Schema.Validation.{is_valid_retention, validate_schema}
use edgewit.Schema.Validity.{IsSound, validate_schema_iff}
use edgewit.Schema.Retentions.{is_valid_retention_panics}
use edgewit.Schema.Builder.{build_schema}
use edgewit.Schema.FieldOrder.{build_schema_order_free}
use edgewit.Schema.FieldNames.{once, times_added, times_added-build_schema}

abbrev pub message : FieldDefinition
message = record {
  field_type = FieldType.text;
  indexed = true;
  stored = false;
  fast = false;
  optional = false;
  default = none;
}

abbrev pub time : FieldDefinition
time = record {
  field_type = FieldType.datetime;
  indexed = true;
  stored = false;
  fast = true;
  optional = true;
  default = none;
}

abbrev pub index : Assoc FieldDefinition → Option Text → IndexDefinition
index fields retention = record {
  name = ascii "logs";
  description = none;
  timestamp_field = ascii "ts";
  mode = dynamic;
  partition = PartitionStrategy.daily;
  retention = retention;
  compression = zstd;
  fields = fields;
  settings = [];
}

abbrev pub two_fields : Assoc FieldDefinition
two_fields = (ascii "ts", time) ∷ (ascii "msg", message) ∷ []

abbrev swapped_fields : Assoc FieldDefinition
swapped_fields = (ascii "msg", message) ∷ (ascii "ts", time) ∷ []

pub unique_fields : HasUniqueKeys two_fields
unfolding lookup text_eq
unique_fields = (refl, (refl, tt))

unique_swapped : HasUniqueKeys swapped_fields
unfolding lookup text_eq
unique_swapped = (refl, (refl, tt))

at_ts : lookup (ascii "ts") two_fields ≡ lookup (ascii "ts") swapped_fields
unfolding lookup text_eq
at_ts = refl

same_fields : (name : Text) → lookup name two_fields ≡ lookup name swapped_fields
unfolding lookup
same_fields name = elim (Bool-cases (text_eq (ascii "ts") name)) [
  | inl y ↦
      subst (λ n. lookup n two_fields ≡ lookup n swapped_fields)
        ((text_eq_iff (ascii "ts") name).0 y) at_ts
  | inr n ↦ rw n refl
]

build_schema_order_free_example :
    build_schema (index two_fields none) ≡ build_schema (index swapped_fields none)
build_schema_order_free_example =
    build_schema_order_free (index two_fields none) (index swapped_fields none) unique_fields
      unique_swapped same_fields refl

times_added-build_schema_example :
    times_added (ascii "_source") (build_schema (index two_fields none))
    ≡ once (contains_key (ascii "_source") two_fields)
      + (once (text_eq (ascii "_source") (ascii "_source"))
          + once (text_eq (ascii "_dynamic") (ascii "_source")))
times_added-build_schema_example =
    times_added-build_schema (index two_fields none) (ascii "_source") unique_fields

validate_schema_iff_example :
    (validate_schema (index two_fields (some (ascii "7d"))) ≡ returns tt)
    ↔ IsSound (index two_fields (some (ascii "7d")))
validate_schema_iff_example = validate_schema_iff (index two_fields (some (ascii "7d")))

is_valid_retention_panics_example :
    is_valid_retention (ascii "7" ++ (195 ∷ []) ++ (169 ∷ [])) ≡ panics
is_valid_retention_panics_example =
    is_valid_retention_panics (ascii "7" ++ (195 ∷ [])) 169 (omega arith) (omega arith)
