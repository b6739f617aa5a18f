-- ===== src/Ingestion/Acceptance.antt =====
-- Which documents `validate_and_process_document` of src/ingestion/validation.rs lets through.
use edgewit.Prelude.{
  ◌≡◌, ◌≢◌, inl, inr, refl, sym, ap, ◌∙◌, true, false, Bool-cases, Option, none, some, List, [],
  ◌∷◌, Text, Assoc, text_eq, lookup, insert, keys, ok, arith, text_eq_iff, text_eq_refl,
  HasUniqueKeys, is_some, ◌>>=◌,
}
use edgewit.Json.{Value}
use edgewit.Schema.Definition.{
  IndexDefinition, FieldDefinition, SchemaMode, strict, drop_unmapped, dynamic,
}
use edgewit.Ingestion.Document.{
  Checked, is_unmapped, by_mode, scan_keys, remove_keys, check_field, check_fields, check_value,
  fill_missing, process_object,
}
use edgewit.Ingestion.Scanning.{has, has-keys}
use edgewit.Ingestion.Conformance.{unmapped-Kept, mapped_is_Kept, is_unmapped_lem}
use edgewit.Ingestion.Fields.{Accepts, check_value-Accepts}

fill_missing_passes :
    (name : Text) (fd : FieldDefinition) (d : Option Value) (obj : Assoc Value)
    → fd.default ≡ d
    → Accepts fd none
    → (obj' : Assoc Value) × (fill_missing name fd d obj ≡ ok obj')
fill_missing_passes name fd (some v) obj e a = (insert name v obj, refl)
fill_missing_passes name fd none obj e (inl n) = absurd (n e)
fill_missing_passes name fd none obj e (inr o) = (obj, rw o refl)

-- A value that its field accepts passes.
check_value_passes :
    (name : Text) (fd : FieldDefinition) (found : Option Value) (obj : Assoc Value)
    → Accepts fd found
    → (obj' : Assoc Value) × (check_value name fd found obj ≡ ok obj')
check_value_passes name fd none obj a = fill_missing_passes name fd fd.default obj refl a
check_value_passes name fd (some v) obj (inl (n, o)) = (obj, rw (n, o) refl)
check_value_passes name fd (some v) obj (inr (n, v')) = (obj, rw (n, v') refl)

-- Every field accepts what stands under its name.
abbrev pub AllAccept : Assoc FieldDefinition → Assoc Value → Type 0
AllAccept fields obj =
    (j : Text) (fd : FieldDefinition) → lookup j fields ≡ some fd → Accepts fd (lookup j obj)

lookup_first :
    (k : Text) (fd : FieldDefinition) (m : Assoc FieldDefinition) → lookup k ((k, fd) ∷ m) ≡ some fd
unfolding lookup
lookup_first k fd m = rw text_eq_refl refl

-- What the first field does leaves the others as they were.
AllAccept-rest :
    (name : Text) (fd : FieldDefinition) (rest : Assoc FieldDefinition) (obj mid : Assoc Value)
    → lookup name rest ≡ none
    → AllAccept ((name, fd) ∷ rest) obj
    → check_value name fd (lookup name obj) obj ≡ ok mid
    → AllAccept rest mid
unfolding lookup
AllAccept-rest name fd rest obj mid fresh h c j other e = elim (Bool-cases (text_eq name j)) [
  | inl y ↦ absurd (
      defined_twice (lookup j rest)
        (ap (λ i. lookup i rest) (sym ((text_eq_iff name j).0 y)) ∙ fresh) e)
  | inr n ↦
      let kept : lookup j mid ≡ lookup j obj =
        (check_value-Accepts name fd (lookup name obj) obj mid refl c).1 j ∙ (rw n refl) in
      let there : lookup j ((name, fd) ∷ rest) ≡ some other = rw n e in rw kept (h j other there)
]
  where
    defined_twice : (o : Option FieldDefinition) → o ≡ none → o ≡ some other → ⊥
    defined_twice o p q = ground arith

check_fields_pass :
    (fields : Assoc FieldDefinition) (obj : Assoc Value)
    → HasUniqueKeys fields
    → AllAccept fields obj
    → (obj' : Assoc Value) × (check_fields fields obj ≡ ok obj')
unfolding check_fields check_field
check_fields_pass [] obj u h = (obj, refl)
check_fields_pass ((name, fd) ∷ rest) obj (fresh, u) h =
    let first =
      check_value_passes name fd (lookup name obj) obj (h name fd (lookup_first name fd rest)) in
    let ih =
      check_fields_pass rest first.0 u (AllAccept-rest name fd rest obj first.0 fresh h first.1) in
    (ih.0, ap (λ c. c >>= λ mid. check_fields rest mid) first.1 ∙ ih.1)

by_mode_passes :
    (m : SchemaMode) (k : Text) (rest : Checked (List Text))
    → m ≢ strict
    → (found : List Text) × (rest ≡ ok found)
    → (found : List Text) × (by_mode m k rest ≡ ok found)
by_mode_passes strict k rest n r = absurd (n refl)
by_mode_passes drop_unmapped k rest n (found, e) = (k ∷ found, rw e refl)
by_mode_passes dynamic k rest n r = r

-- A strict definition has all of these names.
abbrev AllMapped : IndexDefinition → List Text → Type 0
AllMapped def ks = def.mode ≡ strict → (j : Text) → has j ks ≡ true → is_unmapped def j ≡ false

AllMapped-rest :
    (def : IndexDefinition) (k : Text) (ks : List Text) → AllMapped def (k ∷ ks) → AllMapped def ks
unfolding has
AllMapped-rest def k ks h e j i = h e j (rw i (ground arith))

first_mapped :
    (def : IndexDefinition) (k : Text) (ks : List Text)
    → AllMapped def (k ∷ ks)
    → def.mode ≡ strict
    → is_unmapped def k ≡ false
unfolding has
first_mapped def k ks h e = h e k (rw text_eq_refl refl)

scan_keys_passes :
    (def : IndexDefinition) (ks : List Text)
    → AllMapped def ks
    → (found : List Text) × (scan_keys def ks ≡ ok found)
unfolding scan_keys
scan_keys_passes def [] h = ([], refl)
scan_keys_passes def (k ∷ ks) h =
    let ih = scan_keys_passes def ks (AllMapped-rest def k ks h) in
    elim (Bool-cases (is_unmapped def k)) [
      | inl y ↦ rw y (
          by_mode_passes def.mode k (scan_keys def ks) (λ e. both y (first_mapped def k ks h e)) ih)
      | inr n ↦ rw n ih
    ]
  where
    both : is_unmapped def k ≡ true → is_unmapped def k ≡ false → ⊥
    both y n = ground arith

-- If the field names of a definition are distinct, every field accepts what a document has under
-- its name, and the definition, where it is strict, has every name of the document but `_source`,
-- then the document is let through.
pub process_object_passes :
    (def : IndexDefinition) (obj : Assoc Value)
    → HasUniqueKeys def.fields
    → AllAccept def.fields obj
    → (def.mode ≡ strict → (j : Text) → is_some (lookup j obj) ≡ true → is_unmapped def j ≡ false)
    → (obj' : Assoc Value) × (process_object def obj ≡ ok obj')
unfolding process_object
process_object_passes def obj u a m =
    let scan = scan_keys_passes def (keys obj) (λ e j i. m e j (sym (has-keys j obj) ∙ i)) in
    let later : AllAccept def.fields (remove_keys scan.0 obj) = λ j fd e.
      let kept = unmapped-Kept def obj scan.0 scan.1 j in
      let same =
        mapped_is_Kept def.mode (lookup j obj) (lookup j (remove_keys scan.0 obj))
          (rw (is_unmapped_lem def j (some fd) e) at kept) in
      rw same (a j fd e) in
    let done = check_fields_pass def.fields (remove_keys scan.0 obj) u later in
    (
      done.0,
      ap (λ c. c >>= λ found. check_fields def.fields (remove_keys found obj)) scan.1 ∙ done.1,
    )
