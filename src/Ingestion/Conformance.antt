-- ===== src/Ingestion/Conformance.antt =====
-- Which documents `validate_and_process_document` of src/ingestion/validation.rs lets through, and
-- what it makes of them.
use edgewit.Prelude.{
  ◌≡◌, refl, sym, Bool, true, false, ◌&&◌, not, Option, none, some, List, Text, Assoc, ascii,
  text_eq, lookup, keys, if◌then◌else◌, ok, err, ◌>>=◌, arith, HasUniqueKeys, contains_key_lem,
  is_some,
}
use edgewit.Json.{Value}
use edgewit.Schema.Definition.{
  IndexDefinition, FieldDefinition, SchemaMode, strict, drop_unmapped, dynamic,
}
use edgewit.Ingestion.Document.{
  Checked, is_unmapped, scan_keys, remove_keys, check_fields, process_object,
}
use edgewit.Ingestion.Scanning.{has, has-keys, lookup-remove_keys, Scanned, scan_keys-Scanned}
use edgewit.Ingestion.Fields.{Accepts, filled, check_fields-Settled}

-- What becomes of a name that the definition does not have.
abbrev pub Kept : SchemaMode → Bool → Option Value → Option Value → Type 0
Kept strict true old new = (old ≡ none) × (new ≡ none)
Kept drop_unmapped true old new = new ≡ none
Kept dynamic true old new = new ≡ old
Kept m false old new = new ≡ old

Scanned-Kept :
    (m : SchemaMode) (unmapped removed : Bool) (old : Option Value)
    → Scanned m unmapped (is_some old) removed
    → Kept m unmapped old (if removed then none else old)
Scanned-Kept strict true removed none (p, r) = rw r (refl, refl)
Scanned-Kept strict true removed (some v) (p, r) = ground arith
Scanned-Kept drop_unmapped true removed none h = ground arith
Scanned-Kept drop_unmapped true removed (some v) h = ground arith
Scanned-Kept dynamic true removed old h = ground arith
Scanned-Kept m false removed old h = ground arith

pub unmapped-Kept :
    (def : IndexDefinition) (obj : Assoc Value) (found : List Text)
    → scan_keys def (keys obj) ≡ ok found
    → (j : Text)
    → Kept def.mode (is_unmapped def j) (lookup j obj) (lookup j (remove_keys found obj))
unmapped-Kept def obj found h j =
    let scanned : Scanned def.mode (is_unmapped def j) (is_some (lookup j obj)) (has j found) =
      rw (sym (has-keys j obj)) (scan_keys-Scanned def (keys obj) found h j) in
    rw (lookup-remove_keys j found obj)
      (Scanned-Kept def.mode (is_unmapped def j) (has j found) (lookup j obj) scanned)

pub mapped_is_Kept : (m : SchemaMode) (old new : Option Value) → Kept m false old new → new ≡ old
mapped_is_Kept strict old new h = h
mapped_is_Kept drop_unmapped old new h = h
mapped_is_Kept dynamic old new h = h

pub is_unmapped_lem :
    (def : IndexDefinition) (j : Text) (found : Option FieldDefinition)
    → lookup j def.fields ≡ found
    → is_unmapped def j ≡ (not (is_some found) && not (text_eq j (ascii "_source")))
unfolding is_unmapped
is_unmapped_lem def j found e = rw (contains_key_lem j def.fields, e) refl

-- If a document is let through by a definition whose field names are distinct, then every field of
-- the definition accepts the value under its name and leaves it, or puts its default where there
-- is none; any other name but `_source` is absent from the document of a strict index, is dropped
-- for `drop_unmapped` and keeps its value for `dynamic`, and `_source` keeps its value.
pub process_object_conforms :
    (def : IndexDefinition) (obj obj' : Assoc Value)
    → HasUniqueKeys def.fields
    → process_object def obj ≡ ok obj'
    → (name : Text)
    → ((fd : FieldDefinition)
        → lookup name def.fields ≡ some fd
        → Accepts fd (lookup name obj) × (lookup name obj' ≡ filled fd (lookup name obj)))
      × (lookup name def.fields ≡ none
          → Kept def.mode
              (not (text_eq name (ascii "_source")))
              (lookup name obj)
              (lookup name obj'))
unfolding process_object
process_object_conforms def obj obj' u h name = by_scan (scan_keys def (keys obj)) refl h
  where
    by_scan :
        (scan : Checked (List Text))
        → scan_keys def (keys obj) ≡ scan
        → (scan >>= λ found. check_fields def.fields (remove_keys found obj)) ≡ ok obj'
        → ((fd : FieldDefinition)
            → lookup name def.fields ≡ some fd
            → Accepts fd (lookup name obj) × (lookup name obj' ≡ filled fd (lookup name obj)))
          × (lookup name def.fields ≡ none
              → Kept def.mode
                  (not (text_eq name (ascii "_source")))
                  (lookup name obj)
                  (lookup name obj'))
    by_scan (err e) _ q = ground arith
    by_scan (ok found) s q =
        let kept = unmapped-Kept def obj found s name in
        let settled = check_fields-Settled def.fields (remove_keys found obj) obj' u q name in
        (
          λ fd e.
              let same =
                mapped_is_Kept def.mode (lookup name obj) (lookup name (remove_keys found obj))
                  (rw (is_unmapped_lem def name (some fd) e) at kept) in
              rw (e, same) at settled,
          λ e. rw (rw e at settled) (rw (is_unmapped_lem def name none e) at kept),
        )
