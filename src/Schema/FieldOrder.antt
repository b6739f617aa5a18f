-- ===== src/Schema/FieldOrder.antt =====
-- `build_schema` of src/schema/builder.rs sorts the fields, whose map has no order of its own.
use edgewit.Prelude.{
  ◌≡◌, ◌≢◌, inl, inr, refl, sym, ap, ◌∙◌, true, false, Bool-cases, [], ◌∷◌, Text, Assoc, text_eq,
  text_eq_iff, text_eq_refl, arith, none, some, remove, lookup-remove, HasUniqueKeys-remove, lookup,
  HasUniqueKeys,
}
use edgewit.Schema.Definition.{IndexDefinition, FieldDefinition}
use edgewit.Schema.Builder.{text_leb, insert_by_name, sort_by_name, build_schema}

text_leb_total : (a b : Text) → text_leb a b ≡ false → text_leb b a ≡ true
unfolding text_leb
text_leb_total [] b h = ground arith
text_leb_total (x ∷ a) [] h = refl
text_leb_total (x ∷ a) (y ∷ b) h = ground (arith, text_leb_total a b)

text_leb_antisym : (a b : Text) → text_leb a b ≡ true → text_leb b a ≡ true → a ≡ b
unfolding text_leb
text_leb_antisym [] [] h k = refl
text_leb_antisym [] (y ∷ b) h k = ground arith
text_leb_antisym (x ∷ a) [] h k = ground arith
text_leb_antisym (x ∷ a) (y ∷ b) h k = grind (arith, text_leb_antisym a b)

text_leb_trans : (a b c : Text) → text_leb a b ≡ true → text_leb b c ≡ true → text_leb a c ≡ true
unfolding text_leb
text_leb_trans [] b c h k = refl
text_leb_trans (x ∷ a) [] c h k = ground arith
text_leb_trans (x ∷ a) (y ∷ b) [] h k = ground arith
text_leb_trans (x ∷ a) (y ∷ b) (z ∷ c) h k = ground (arith, text_leb_trans a b c)

-- Two entries with different names can be inserted in either order.
insert_by_name_comm :
    (e f : Text × FieldDefinition) (m : Assoc FieldDefinition)
    → e.0 ≢ f.0
    → insert_by_name e (insert_by_name f m) ≡ insert_by_name f (insert_by_name e m)
unfolding insert_by_name
insert_by_name_comm e f [] ne = ground (arith, text_leb_total e.0 f.0, text_leb_antisym e.0 f.0)
insert_by_name_comm e f (g ∷ m) ne = ground (
  arith,
  text_leb_total e.0 f.0,
  text_leb_total f.0 e.0,
  text_leb_total e.0 g.0,
  text_leb_total f.0 g.0,
  text_leb_antisym e.0 f.0,
  text_leb_trans e.0 f.0 g.0,
  text_leb_trans f.0 e.0 g.0,
  text_leb_trans e.0 g.0 f.0,
  text_leb_trans f.0 g.0 e.0,
  insert_by_name_comm e f m ne,
)

true-false : true ≡ false → ⊥
true-false h = ground arith

none_not_some : {fd : FieldDefinition} → none ≡ some fd → ⊥
none_not_some h = ground arith

remove_fresh : (k : Text) (m : Assoc FieldDefinition) → lookup k m ≡ none → remove k m ≡ m
unfolding lookup remove
remove_fresh k [] h = refl
remove_fresh k ((j, w) ∷ m) h = ground (arith, remove_fresh k m)

-- An entry can be taken out of the map and inserted at the end.
sort_by_name_extract :
    (k : Text) (v : FieldDefinition) (m : Assoc FieldDefinition)
    → HasUniqueKeys m
    → lookup k m ≡ some v
    → sort_by_name m ≡ insert_by_name (k, v) (sort_by_name (remove k m))
unfolding sort_by_name lookup remove
sort_by_name_extract k v [] u h = ground arith
sort_by_name_extract k v ((j, w) ∷ m) (fresh, u) h = elim (Bool-cases (text_eq j k)) [
  | inl y ↦
      let same = (text_eq_iff j k).0 y in
      let value : w ≡ v = cc (rw y at h) in
      rw (y, same, value, remove_fresh k m (ap (λ i. lookup i m) (sym same) ∙ fresh)) refl
  | inr n ↦
      let ih = sort_by_name_extract k v m u (rw n at h) in
      rw (n, ih)
        (insert_by_name_comm (j, w) (k, v) (sort_by_name (remove k m))
          (λ e. absurd (true-false (sym ((text_eq_iff j k).1 e) ∙ n))))
]

lookup_head :
    (k : Text) (v : FieldDefinition) (m : Assoc FieldDefinition) → lookup k ((k, v) ∷ m) ≡ some v
unfolding lookup
lookup_head k v m = rw text_eq_refl refl

-- Two maps that agree still agree without one name.
others_agree :
    (k : Text) (v : FieldDefinition) (m n : Assoc FieldDefinition)
    → lookup k m ≡ none
    → ((name : Text) → lookup name ((k, v) ∷ m) ≡ lookup name n)
    → (name : Text) → lookup name m ≡ lookup name (remove k n)
unfolding lookup
others_agree k v m n fresh h name =
    rw (lookup-remove k name n) (elim (Bool-cases (text_eq k name)) [
      | inl y ↦ rw y (ap (λ i. lookup i m) (sym ((text_eq_iff k name).0 y)) ∙ fresh)
      | inr d ↦ let same = h name in rw d (rw d at same)
    ])

-- What is sorted depends only on what stands under each name.
sort_by_name_order_free :
    (m n : Assoc FieldDefinition)
    → HasUniqueKeys m
    → HasUniqueKeys n
    → ((name : Text) → lookup name m ≡ lookup name n)
    → sort_by_name m ≡ sort_by_name n
unfolding sort_by_name lookup
sort_by_name_order_free [] [] u w h = refl
sort_by_name_order_free [] ((k, v) ∷ n) u w h = absurd (none_not_some (h k ∙ lookup_head k v n))
sort_by_name_order_free ((k, v) ∷ m) n (fresh, u) w h =
    let found : lookup k n ≡ some v = sym (h k) ∙ lookup_head k v m in
    let ih =
      sort_by_name_order_free m (remove k n) u (HasUniqueKeys-remove k n w)
        (others_agree k v m n fresh h) in
    rw ih (sym (sort_by_name_extract k v n w found))

-- Two definitions with distinct field names, the same field under each name and the same mode make
-- the same calls on the schema builder, in whatever order their maps are iterated.
pub build_schema_order_free :
    (d e : IndexDefinition)
    → HasUniqueKeys d.fields
    → HasUniqueKeys e.fields
    → ((name : Text) → lookup name d.fields ≡ lookup name e.fields)
    → d.mode ≡ e.mode
    → build_schema d ≡ build_schema e
unfolding build_schema
build_schema_order_free d e u w same mode =
    rw (sort_by_name_order_free d.fields e.fields u w same, mode) refl
