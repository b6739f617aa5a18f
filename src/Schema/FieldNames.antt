-- ===== src/Schema/FieldNames.antt =====
-- The names that `build_schema` of src/schema/builder.rs adds to the builder. The builder of the
-- search library refuses a name that is added twice.
use edgewit.Prelude.{
  ℕ, ◌+◌, ◌≡◌, inl, inr, refl, sym, ap, ◌∙◌, Bool, true, false, Bool-cases, if◌then◌else◌, List, [],
  ◌∷◌, ◌++◌, map, Text, Assoc, ascii, text_eq, text_eq_iff, arith, lookup, contains_key,
  contains_key_lem, HasUniqueKeys,
}
use edgewit.Schema.Definition.{
  IndexDefinition, FieldDefinition, FieldType, SchemaMode, strict, drop_unmapped, dynamic,
}
use edgewit.Schema.Builder.{
  AddField, add_field, text_leb, insert_by_name, sort_by_name, source_field, dynamic_field,
  build_schema,
}

abbrev pub once : Bool → ℕ
once true = 1
once false = 0

-- How often a name is added.
unfoldable pub times_added : Text → List AddField → ℕ
times_added n [] = 0
times_added n (c ∷ cs) = once (text_eq c.name n) + times_added n cs

abbrev declared : Text × FieldDefinition → AddField
declared e = add_field e.1.field_type e.0 e.1

times_added-append :
    (n : Text) (cs ds : List AddField)
    → times_added n (cs ++ ds) ≡ times_added n cs + times_added n ds
unfolding times_added
times_added-append n [] ds = ground arith
times_added-append n (c ∷ cs) ds = ground (arith, times_added-append n cs ds)

add_field-name :
    (t : FieldType) (name : Text) (fd : FieldDefinition) → (add_field t name fd).name ≡ name
unfolding add_field
add_field-name FieldType.text name fd = refl
add_field-name FieldType.keyword name fd = refl
add_field-name FieldType.datetime name fd = refl
add_field-name FieldType.integer name fd = refl
add_field-name FieldType.float name fd = refl
add_field-name FieldType.boolean name fd = refl
add_field-name FieldType.bytes name fd = refl

-- An insertion adds its own name once more.
times_added-insert :
    (n : Text) (e : Text × FieldDefinition) (m : Assoc FieldDefinition)
    → times_added n (map declared (insert_by_name e m))
      ≡ once (text_eq e.0 n) + times_added n (map declared m)
unfolding times_added insert_by_name
times_added-insert n e [] = rw (add_field-name e.1.field_type e.0 e.1) refl
times_added-insert n e (f ∷ m) = elim (Bool-cases (text_leb e.0 f.0)) [
  | inl y ↦ rw (y, add_field-name e.1.field_type e.0 e.1) refl
  | inr d ↦ rw (d, times_added-insert n e m) (ground arith)
]

times_added-sort :
    (n : Text) (m : Assoc FieldDefinition)
    → HasUniqueKeys m
    → times_added n (map declared (sort_by_name m)) ≡ once (contains_key n m)
unfolding sort_by_name times_added contains_key
times_added-sort n [] u = refl
times_added-sort n ((k, v) ∷ m) (fresh, u) =
    rw (times_added-insert n (k, v) (sort_by_name m), times_added-sort n m u)
      (elim (Bool-cases (text_eq k n)) [
        | inl y ↦
            let same = (text_eq_iff k n).0 y in
            rw (y, contains_key_lem n m, ap (λ i. lookup i m) (sym same) ∙ fresh) refl
        | inr d ↦ rw d (ground arith)
      ])

abbrev pub is_dynamic : SchemaMode → Bool
is_dynamic dynamic = true
is_dynamic strict = false
is_dynamic drop_unmapped = false

times_added-dynamic :
    (n : Text) (m : SchemaMode)
    → times_added n (dynamic_field m)
      ≡ (if is_dynamic m then once (text_eq (ascii "_dynamic") n) else 0)
unfolding times_added
times_added-dynamic n dynamic = ground arith
times_added-dynamic n strict = refl
times_added-dynamic n drop_unmapped = refl

-- If the field names of a definition are distinct, each is added to the builder once, `_source`
-- once more, and `_dynamic` once more in a dynamic index, and no other name is added.
pub times_added-build_schema :
    (d : IndexDefinition) (n : Text)
    → HasUniqueKeys d.fields
    → times_added n (build_schema d)
      ≡ once (contains_key n d.fields)
        + (once (text_eq (ascii "_source") n)
            + (if is_dynamic d.mode then once (text_eq (ascii "_dynamic") n) else 0))
unfolding build_schema times_added
times_added-build_schema d n u =
    rw
      (
        times_added-append n (map declared (sort_by_name d.fields))
            (source_field ∷ dynamic_field d.mode),
        times_added-sort n d.fields u,
        times_added-dynamic n d.mode,
      )
      refl
