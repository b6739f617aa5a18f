-- ===== src/Ingestion/Scanning.antt =====
-- The loop over the keys in `validate_and_process_document` of src/ingestion/validation.rs.
use edgewit.Prelude.{
  ◌≡◌, inl, inr, refl, sym, ap, ◌∙◌, Bool, true, false, Bool-cases, none, List, [], ◌∷◌, Text,
  Assoc, text_eq, lookup, remove, keys, if◌then◌else◌, ok, err, arith, lookup-remove, text_eq_iff,
  is_some,
}
use edgewit.Json.{Value}
use edgewit.Schema.Definition.{IndexDefinition, SchemaMode, strict, drop_unmapped, dynamic}
use edgewit.Ingestion.Document.{Checked, is_unmapped, by_mode, scan_keys, remove_keys}

-- How a name stands in a list.
unfoldable pub has : Text → List Text → Bool
has j [] = false
has j (k ∷ ks) = if text_eq k j then true else has j ks

pub has-keys : (j : Text) (obj : Assoc Value) → has j (keys obj) ≡ is_some (lookup j obj)
unfolding has keys lookup
has-keys j [] = refl
has-keys j ((k, v) ∷ obj) = ground (arith, has-keys j obj)

pub lookup-remove_keys :
    (j : Text) (ks : List Text) (obj : Assoc Value)
    → lookup j (remove_keys ks obj) ≡ (if has j ks then none else lookup j obj)
unfolding remove_keys has
lookup-remove_keys j [] obj = refl
lookup-remove_keys j (k ∷ ks) obj =
    rw (lookup-remove_keys j ks (remove k obj), lookup-remove k j obj) (ground arith)

-- What the mode makes of a name of the document that the definition does not have.
abbrev pub Scanned : SchemaMode → Bool → Bool → Bool → Type 0
Scanned m false present removed = removed ≡ false
Scanned strict true present removed = (present ≡ false) × (removed ≡ false)
Scanned drop_unmapped true present removed = removed ≡ present
Scanned dynamic true present removed = removed ≡ false

Scanned-nothing : (m : SchemaMode) (unmapped : Bool) → Scanned m unmapped false false
Scanned-nothing strict true = (refl, refl)
Scanned-nothing drop_unmapped true = refl
Scanned-nothing dynamic true = refl
Scanned-nothing m false = refl

Scanned-more :
    (m : SchemaMode) (unmapped here present removed : Bool)
    → (here ≡ true → unmapped ≡ false)
    → Scanned m unmapped present removed
    → Scanned m unmapped (if here then true else present) removed
Scanned-more strict true here present removed n h = ground arith
Scanned-more drop_unmapped true here present removed n h = ground arith
Scanned-more dynamic true here present removed n h = ground arith
Scanned-more m false here present removed n h = h

Scanned-any :
    (unmapped present present' removed : Bool)
    → Scanned dynamic unmapped present removed
    → Scanned dynamic unmapped present' removed
Scanned-any true present present' removed h = h
Scanned-any false present present' removed h = h

Scanned-both :
    (unmapped here present removed : Bool)
    → (here ≡ true → unmapped ≡ true)
    → Scanned drop_unmapped unmapped present removed
    → Scanned drop_unmapped unmapped
        (if here then true else present)
        (if here then true else removed)
Scanned-both true here present removed n h = ground arith
Scanned-both false here present removed n h = ground arith

list_same : {a b : List Text} (p q : Checked (List Text)) → p ≡ ok a → q ≡ ok b → p ≡ q → a ≡ b
list_same p q e f h = cc (e, f, h)

-- A key that the definition does not have, before keys of which the same is known.
by_mode-Scanned :
    (m : SchemaMode) (unmapped : Bool) (k j : Text) (ks found : List Text)
    (rest : Checked (List Text))
    → (text_eq k j ≡ true → unmapped ≡ true)
    → ((later : List Text) → rest ≡ ok later → Scanned m unmapped (has j ks) (has j later))
    → by_mode m k rest ≡ ok found
    → Scanned m unmapped (has j (k ∷ ks)) (has j found)
unfolding has
by_mode-Scanned strict unmapped k j ks found rest n ih h = ground arith
by_mode-Scanned dynamic unmapped k j ks found rest n ih h =
    Scanned-any unmapped (has j ks) (if text_eq k j then true else has j ks) (has j found)
      (ih found h)
by_mode-Scanned drop_unmapped unmapped k j ks found (err e) n ih h = ground arith
by_mode-Scanned drop_unmapped unmapped k j ks found (ok later) n ih h =
    rw (sym (list_same (ok (k ∷ later)) (ok found) refl refl h))
      (Scanned-both unmapped (text_eq k j) (has j ks) (has j later) n (ih later refl))

pub scan_keys-Scanned :
    (def : IndexDefinition) (ks found : List Text)
    → scan_keys def ks ≡ ok found
    → (j : Text) → Scanned def.mode (is_unmapped def j) (has j ks) (has j found)
unfolding scan_keys has
scan_keys-Scanned def [] found h j =
    rw (sym (list_same (ok []) (ok found) refl refl h))
      (Scanned-nothing def.mode (is_unmapped def j))
scan_keys-Scanned def (k ∷ ks) found h j =
    let ih : (later : List Text)
        → scan_keys def ks ≡ ok later
        → Scanned def.mode (is_unmapped def j) (has j ks) (has j later) =
      λ later e. scan_keys-Scanned def ks later e j in
    elim (Bool-cases (is_unmapped def k)) [
      | inl y ↦
          by_mode-Scanned def.mode (is_unmapped def j) k j ks found (scan_keys def ks)
            (λ same. ap (is_unmapped def) (sym ((text_eq_iff k j).0 same)) ∙ y) ih (rw y at h)
      | inr n ↦
          Scanned-more def.mode (is_unmapped def j) (text_eq k j) (has j ks) (has j found)
            (λ same. ap (is_unmapped def) (sym ((text_eq_iff k j).0 same)) ∙ n)
            (ih found (rw n at h))
    ]
