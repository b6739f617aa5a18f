-- ===== src/Ingestion/Tests.antt =====
-- A document and a bulk body for src/ingestion, and what the theorems say of them.
use edgewit.Prelude.{
  inl, inr, Bool-cases, text_eq_iff, is_some, ℕ, ◌≡◌, ◌↔◌, refl, Bool, true, false, Option, none,
  some, List, [], ◌∷◌, Text, Assoc, ascii, text_eq, lookup, contains_key, keys, if◌then◌else◌, ok,
  All, not, ltb, arith,
}
use mathlib.Core.Path.{subst}
use mathlib.Core.Option.{some-injective}
use edgewit.Json.{
  Items, get, find_entry, Value, string, number, unsigned, object, entry, no_entries,
}
use edgewit.Schema.Definition.{FieldDefinition, dynamic, strict}
use edgewit.Schema.Tests.{index, two_fields, unique_fields}
use edgewit.Ingestion.Document.{
  process_object, scan_keys, is_unmapped, remove_keys, check_fields, check_field, is_valid,
}
use edgewit.Ingestion.Fields.{Accepts, filled}
use edgewit.Ingestion.Conformance.{Kept, process_object_conforms}
use edgewit.Ingestion.Acceptance.{AllAccept, process_object_passes}
use edgewit.Ingestion.Lines.{is_blank, body_of}
use edgewit.Ingestion.Routes.{Answer, bulk_handler}
use edgewit.Ingestion.Documents.{
  BulkDocument, lines, sent, Reports, AllConfirmed, summary, Names, explicit, implicit, IsDocument,
}
use edgewit.Ingestion.Bulk.{bulk_handler_outcome}

abbrev document : Assoc Value
document = (ascii "msg", string (ascii "hi")) ∷ (ascii "x", number (unsigned 1)) ∷ []

accepted : process_object (index two_fields none) document ≡ ok document
unfolding process_object scan_keys is_unmapped remove_keys check_fields check_field is_valid lookup
    contains_key keys text_eq
accepted = refl

process_object_conforms_example :
    ((fd : FieldDefinition)
      → lookup (ascii "msg") two_fields ≡ some fd
      → Accepts fd (lookup (ascii "msg") document)
        × (lookup (ascii "msg") document ≡ filled fd (lookup (ascii "msg") document)))
    × (lookup (ascii "msg") two_fields ≡ none
        → Kept dynamic
            (not (text_eq (ascii "msg") (ascii "_source")))
            (lookup (ascii "msg") document)
            (lookup (ascii "msg") document))
process_object_conforms_example =
    process_object_conforms (index two_fields none) document document unique_fields accepted
      (ascii "msg")

ts-Accepts :
    (fd : FieldDefinition)
    → lookup (ascii "ts") two_fields ≡ some fd
    → Accepts fd (lookup (ascii "ts") document)
unfolding lookup text_eq
ts-Accepts fd e = subst (λ f. Accepts f none) (some-injective _ _ e) (inr refl)

msg-Accepts :
    (fd : FieldDefinition)
    → lookup (ascii "msg") two_fields ≡ some fd
    → Accepts fd (lookup (ascii "msg") document)
unfolding lookup text_eq is_valid
msg-Accepts fd e =
    subst (λ f. Accepts f (some (string (ascii "hi")))) (some-injective _ _ e) (inr (refl, refl))

no_other :
    (j : Text) (fd : FieldDefinition)
    → text_eq (ascii "ts") j ≡ false
    → text_eq (ascii "msg") j ≡ false
    → lookup j two_fields ≡ some fd
    → ⊥
unfolding lookup
no_other j fd a b e = ground arith

all_accepted : AllAccept two_fields document
all_accepted j fd e = elim (Bool-cases (text_eq (ascii "ts") j)) [
  | inl y ↦
      subst
        (λ n. (f : FieldDefinition) → lookup n two_fields ≡ some f → Accepts f (lookup n document))
        ((text_eq_iff (ascii "ts") j).0 y) ts-Accepts fd e
  | inr n ↦ elim (Bool-cases (text_eq (ascii "msg") j)) [
    | inl y ↦
        subst
          (λ n.
            (f : FieldDefinition) → lookup n two_fields ≡ some f → Accepts f (lookup n document))
          ((text_eq_iff (ascii "msg") j).0 y) msg-Accepts fd e
    | inr m ↦ absurd (no_other j fd n m e)
  ]
]

not_strict :
    (index two_fields none).mode ≡ strict
    → (j : Text) → is_some (lookup j document) ≡ true
    → is_unmapped (index two_fields none) j ≡ false
not_strict e = ground arith

process_object_passes_example :
    (obj' : Assoc Value) × (process_object (index two_fields none) document ≡ ok obj')
process_object_passes_example =
    process_object_passes (index two_fields none) document unique_fields all_accepted not_strict

-- A parser that knows one action line, and takes no other line for JSON.
abbrev pub from_str : Text → Option Value
from_str line =
    if text_eq line (ascii "{i}")
    then some (
        object (
          entry (ascii "index") (object (entry (ascii "_index") (string (ascii "logs")) no_entries))
            no_entries))
    else none

abbrev pub two_documents : List BulkDocument
two_documents =
    record { action = ascii "{i}"; index = ascii "logs"; payload = ascii "{a}" }
    ∷ record { action = ascii "?"; index = ascii "default"; payload = ascii "{b}" }
    ∷ []

Names-logs : Names from_str (ascii "{i}") (ascii "logs")
unfolding text_eq get find_entry
Names-logs = record {
  parsed = object (
      entry (ascii "index") (object (entry (ascii "_index") (string (ascii "logs")) no_entries))
        no_entries);
  action = object (entry (ascii "_index") (string (ascii "logs")) no_entries);
  read = refl;
  found = refl;
  spelled = refl;
}

Names-none : (name : Text) → ¬ Names from_str (ascii "?") name
unfolding text_eq
Names-none name r = absurd (cc r.read)

pub are_documents : All (IsDocument from_str) two_documents
unfolding is_blank
are_documents = (
  (ground arith, ground arith, explicit Names-logs),
  ((ground arith, ground arith, implicit Names-none refl), tt),
)

abbrev pub accepting : ℕ → Bool
accepting i = true

abbrev answers : ℕ → Answer
answers i = if ltb i 1 then some (ok tt) else none

bulk_handler_outcome_example :
    (errors : Bool) × (items : Items) × (bulk_handler from_str accepting answers
        (body_of (lines two_documents))
      ≡ (sent 0 two_documents, ok (200, summary errors items)))
    × Reports answers 0 two_documents items
    × ((errors ≡ false) ↔ AllConfirmed answers 0 two_documents)
bulk_handler_outcome_example =
    bulk_handler_outcome from_str accepting answers two_documents are_documents (λ i. refl)
