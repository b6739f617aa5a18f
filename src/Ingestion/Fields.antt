-- ===== src/Ingestion/Fields.antt =====
-- The loop over the fields in `validate_and_process_document` of src/ingestion/validation.rs.
use edgewit.Prelude.{
  ◌≡◌, ◌≢◌, ◌⊎◌, inl, inr, refl, sym, ap, ◌∙◌, true, false, Bool-cases, Option, none, some, [], ◌∷◌,
  Text, Assoc, text_eq, lookup, insert, if◌then◌else◌, ok, err, ◌>>=◌, arith, lookup-insert,
  text_eq_iff, HasUniqueKeys,
}
use edgewit.Json.{Value, is_null}
use edgewit.Schema.Definition.{FieldDefinition}
use edgewit.Ingestion.Document.{
  Checked, is_valid, check_present, fill_missing, check_value, check_field, check_fields,
}

-- What a field asks of the document's value for it.
abbrev pub Accepts : FieldDefinition → Option Value → Type 0
Accepts fd (some v) =
    ((is_null v ≡ true) × (fd.optional ≡ true))
    ⊎ ((is_null v ≡ false) × (is_valid fd.field_type v ≡ true))
Accepts fd none = (fd.default ≢ none) ⊎ (fd.optional ≡ true)

-- The value after the check: a default stands where there was none.
abbrev pub filled : FieldDefinition → Option Value → Option Value
filled fd (some v) = some v
filled fd none = fd.default

-- The same map, described by what stands under one name.
if_unchanged :
    (name j : Text) (obj : Assoc Value) (found : Option Value)
    → lookup name obj ≡ found
    → (if text_eq name j then found else lookup j obj) ≡ lookup j obj
if_unchanged name j obj found e = elim (Bool-cases (text_eq name j)) [
  | inl y ↦ rw y (sym e ∙ ap (λ i. lookup i obj) ((text_eq_iff name j).0 y))
  | inr n ↦ rw n refl
]

-- A value that is there is checked and stays.
check_present-Accepts :
    (name : Text) (fd : FieldDefinition) (v : Value) (obj obj' : Assoc Value)
    → check_present name fd v obj ≡ ok obj'
    → Accepts fd (some v) × (obj ≡ obj')
check_present-Accepts name fd v obj obj' h = ground arith

may_be_missing :
    (name : Text) (fd : FieldDefinition) (obj obj' : Assoc Value)
    → fill_missing name fd none obj ≡ ok obj'
    → (fd.optional ≡ true) × (obj ≡ obj')
may_be_missing name fd obj obj' h = ground arith

pub none_not_some : {v : Value} → none ≡ some v → ⊥
none_not_some q = ground arith

ok_same : {a b : Assoc Value} (p q : Checked (Assoc Value)) → p ≡ ok a → q ≡ ok b → p ≡ q → a ≡ b
ok_same p q e f h = cc (e, f, h)

-- A value that is not there is filled in or may be missing.
fill_missing-Accepts :
    (name : Text) (fd : FieldDefinition) (d : Option Value) (obj obj' : Assoc Value)
    → lookup name obj ≡ none
    → fd.default ≡ d
    → fill_missing name fd d obj ≡ ok obj'
    → Accepts fd none × ((j : Text) → lookup j obj' ≡ (if text_eq name j then d else lookup j obj))
fill_missing-Accepts name fd none obj obj' e p h =
    let (o, s) = may_be_missing name fd obj obj' h in
    (inr o, λ j. rw (sym s) (sym (if_unchanged name j obj none e)))
fill_missing-Accepts name fd (some v) obj obj' e p h = (
  inl (λ q. none_not_some (sym q ∙ p)),
  λ j.
      rw (sym (ok_same (ok (insert name v obj)) (ok obj') refl refl h))
        (lookup-insert name j v obj),
)

-- One field: when it is accepted, and what then changes.
pub check_value-Accepts :
    (name : Text) (fd : FieldDefinition) (found : Option Value) (obj obj' : Assoc Value)
    → lookup name obj ≡ found
    → check_value name fd found obj ≡ ok obj'
    → Accepts fd found
      × ((j : Text) → lookup j obj' ≡ (if text_eq name j then filled fd found else lookup j obj))
check_value-Accepts name fd none obj obj' e h =
    fill_missing-Accepts name fd fd.default obj obj' e refl h
check_value-Accepts name fd (some v) obj obj' e h =
    let (a, s) = check_present-Accepts name fd v obj obj' h in
    (a, λ j. rw (sym s) (sym (if_unchanged name j obj (some v) e)))

-- What a name's definition, if there is one, makes of the value under the name.
abbrev pub Settled : Option FieldDefinition → Option Value → Option Value → Type 0
Settled none old new = new ≡ old
Settled (some fd) old new = Accepts fd old × (new ≡ filled fd old)

pub check_fields-Settled :
    (fields : Assoc FieldDefinition) (obj obj' : Assoc Value)
    → HasUniqueKeys fields
    → check_fields fields obj ≡ ok obj'
    → (j : Text) → Settled (lookup j fields) (lookup j obj) (lookup j obj')
unfolding check_fields check_field lookup
check_fields-Settled [] obj obj' u h j =
    ap (lookup j) (sym (ok_same (ok obj) (ok obj') refl refl h))
check_fields-Settled ((name, fd) ∷ rest) obj obj' (fresh, u) h j =
    by_check (λ mid q. check_fields-Settled rest mid obj' u q j)
      (check_value name fd (lookup name obj) obj) refl h
  where
    by_check :
        ((mid : Assoc Value)
          → check_fields rest mid ≡ ok obj'
          → Settled (lookup j rest) (lookup j mid) (lookup j obj'))
        → (c : Checked (Assoc Value)) → check_value name fd (lookup name obj) obj ≡ c
        → (c >>= λ mid. check_fields rest mid) ≡ ok obj'
        → Settled (if text_eq name j then some fd else lookup j rest) (lookup j obj) (lookup j obj')
    by_check _ (err e) _ q = ground arith
    by_check after (ok mid) c q =
        let (a, m) = check_value-Accepts name fd (lookup name obj) obj mid refl c in
        let later = after mid q in
        elim (Bool-cases (text_eq name j)) [
          | inl y ↦
              let same = (text_eq_iff name j).0 y in
              let kept : lookup j obj' ≡ lookup j mid =
                rw (ap (λ i. lookup i rest) (sym same) ∙ fresh) at later in
              let old : lookup name obj ≡ lookup j obj = ap (λ i. lookup i obj) same in
              let new : lookup j mid ≡ filled fd (lookup name obj) = m j ∙ (rw y refl) in
              rw (y, sym old) (a, kept ∙ new)
          | inr n ↦
              let kept : lookup j mid ≡ lookup j obj = m j ∙ (rw n refl) in rw (n, sym kept) later
        ]
