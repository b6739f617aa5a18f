-- ===== src/Ingestion/Documents.antt =====
-- A bulk request to src/ingestion/routes.rs as its client means it: documents, each with the index
-- that its action line names, what is to be sent to the log for them, and what is to be reported.
use edgewit.Prelude.{ℕ, suc, ◌≡◌, refl, Option, none, some, List, [], ◌∷◌, Text, ascii, ok, Bool}
use edgewit.Json.{
  Value, Items, null, bool, number, string, array, object, no_items, item, no_entries, entry, get,
  unsigned,
}
use edgewit.Wal.Appender.{WalRequest}
use edgewit.Ingestion.Lines.{IsLine}
use edgewit.Ingestion.Routes.{Answer, index_of, text_or_default, as_text, field, or_null}

-- The action line, the index that the document is for, and the document line.
pub record BulkDocument : Type 0 where
  pub action : Text
  pub index : Text
  pub payload : Text

-- The lines of a body.
abbrev pub lines : List BulkDocument → List Text
lines [] = []
lines (d ∷ docs) = d.action ∷ d.payload ∷ lines docs

-- What is to be sent: each document for its index, answered under its number.
abbrev pub sent : ℕ → List BulkDocument → List WalRequest
sent n [] = []
sent n (d ∷ docs) =
    record { event = record { index = d.index; payload = d.payload }; responder = n }
    ∷ sent (suc n) docs

abbrev pub IsConfirmed : Answer → Type 0
IsConfirmed answer = answer ≡ some (ok tt)

-- `{"index": {"_index": index, "status": status}}`
abbrev pub report : Text → ℕ → Value
report index status = object (
    entry (ascii "index")
      (object (
        entry (ascii "_index") (string index)
          (entry (ascii "status") (number (unsigned status)) no_entries)))
      no_entries)

-- `{"took": 1, "errors": errors, "items": items}`
abbrev pub summary : Bool → Items → Value
summary errors items = object (
    entry (ascii "took") (number (unsigned 1))
      (entry (ascii "errors") (bool errors) (entry (ascii "items") (array items) no_entries)))

-- One item for each document, with its index: 201 where the log confirmed it, 500 where not.
pub data Reports (rx : ℕ → Answer) : ℕ → List BulkDocument → Items → Type 0 where
  done : {n : ℕ} → Reports rx n [] no_items
  confirmed :
      {n : ℕ} {d : BulkDocument} {docs : List BulkDocument} {items : Items}
      → IsConfirmed (rx n)
      → Reports rx (suc n) docs items
      → Reports rx n (d ∷ docs) (item (report d.index 201) items)
  failed :
      {n : ℕ} {d : BulkDocument} {docs : List BulkDocument} {items : Items}
      → ¬ IsConfirmed (rx n)
      → Reports rx (suc n) docs items
      → Reports rx n (d ∷ docs) (item (report d.index 500) items)

-- The log confirmed every document.
abbrev pub AllConfirmed : (ℕ → Answer) → ℕ → List BulkDocument → Type 0
AllConfirmed rx n [] = Unit
AllConfirmed rx n (d ∷ docs) = IsConfirmed (rx n) × AllConfirmed rx (suc n) docs

-- With the parser of `serde_json`.
module _ (from_str : Text → Option Value) where
  -- The line has a text under `_index` in what it has under `index`.
  pub record Names (line name : Text) : Type 0 where
    pub parsed : Value
    pub action : Value
    pub read : from_str line ≡ some parsed
    pub found : get parsed (ascii "index") ≡ some action
    pub spelled : get action (ascii "_index") ≡ some (string name)

  -- A document is for the index that its action line names, or for `default` if it names none.
  pub data IsFor (line index : Text) : Type 0 where
    explicit : Names line index → IsFor line index
    implicit : ((name : Text) → ¬ Names line name) → index ≡ ascii "default" → IsFor line index

  abbrev pub IsDocument : BulkDocument → Type 0
  IsDocument d = IsLine d.action × IsLine d.payload × IsFor d.action d.index

  index_of_implicit :
      (line : Text) → ((name : Text) → ¬ Names line name) → index_of from_str line ≡ ascii "default"
  unfolding index_of
  index_of_implicit line n = of_line (from_str line) refl
    where
      of_name :
          (parsed action : Value)
          → from_str line ≡ some parsed
          → get parsed (ascii "index") ≡ some action
          → (o : Option Value) → get action (ascii "_index") ≡ o
          → text_or_default (as_text o) ≡ ascii "default"
      of_name parsed action r f none e = refl
      of_name parsed action r f (some null) e = refl
      of_name parsed action r f (some (bool b)) e = refl
      of_name parsed action r f (some (number m)) e = refl
      of_name parsed action r f (some (string s)) e =
          absurd
            (n s (record { parsed = parsed; action = action; read = r; found = f; spelled = e }))
      of_name parsed action r f (some (array vs)) e = refl
      of_name parsed action r f (some (object es)) e = refl

      of_action :
          (parsed : Value)
          → from_str line ≡ some parsed
          → (o : Option Value) → get parsed (ascii "index") ≡ o
          → text_or_default (as_text (field (ascii "_index") o)) ≡ ascii "default"
      of_action parsed r none e = refl
      of_action parsed r (some action) e =
          of_name parsed action r e (get action (ascii "_index")) refl

      of_line :
          (o : Option Value)
          → from_str line ≡ o
          → text_or_default (as_text (field (ascii "_index") (get (or_null o) (ascii "index"))))
            ≡ ascii "default"
      of_line none e = unfold get in refl
      of_line (some parsed) e = of_action parsed e (get parsed (ascii "index")) refl

  pub IsFor-index_of : (line index : Text) → IsFor line index → index_of from_str line ≡ index
  unfolding index_of
  IsFor-index_of line index (explicit r) = rw (r.read, r.found, r.spelled) refl
  IsFor-index_of line index (implicit n e) = unfold index_of in rw e (index_of_implicit line n)
