-- ===== src/Ingestion/Routes.antt =====
-- The two handlers of src/ingestion/routes.rs.
use edgewit.Prelude.{
  ℕ, suc, Bool, true, false, ◌||◌, Option, none, some, List, [], ◌∷◌, Text, ascii, if◌then◌else◌,
  Result, ok, err,
}
use edgewit.Json.{
  Value, Items, null, bool, number, string, array, object, no_items, item, no_entries, entry, get,
  as_str, unsigned,
}
use edgewit.Wal.Appender.{WalRequest}
use edgewit.Ingestion.Lines.{lines_of, not_blank}

-- A status with a JSON body, or with a message.
abbrev pub Response : Type 0
Response = Result (ℕ × Text) (ℕ × Value)

abbrev pub num : ℕ → Value
num n = number (unsigned n)

-- What `rx.await` gives: `none` when the responder was dropped.
abbrev pub Answer : Type 0
Answer = Option (Result Text (Unit {0}))

abbrev pub created : Text → Value
created index = object (
    entry (ascii "_index") (string index) (
      entry (ascii "result") (string (ascii "created")) (
        entry (ascii "_shards")
          (object (
            entry (ascii "total") (num 1)
              (entry (ascii "successful") (num 1) (entry (ascii "failed") (num 0) no_entries))))
          no_entries)))

abbrev pub ingest_answer : Text → Answer → Response
ingest_answer index (some (ok u)) = ok (201, created index)
ingest_answer index (some (err e)) = err (500, e)
ingest_answer index none = err (500, ascii "WAL responder dropped")

-- Whether the channel takes the request, and what the responder says; the request that was sent.
unfoldable pub ingest_doc_handler : Bool → Answer → Text → Text → List WalRequest × Response
ingest_doc_handler accepts answer index body =
    if accepts
    then (
      record { event = record { index = index; payload = body }; responder = 0 } ∷ [],
      ingest_answer index answer,
    )
    else ([], err (500, ascii "WAL channel closed"))

abbrev pub text_or_default : Option Text → Text
text_or_default none = ascii "default"
text_or_default (some s) = s

abbrev pub field : Text → Option Value → Option Value
field k none = none
field k (some v) = get v k

abbrev pub as_text : Option Value → Option Text
as_text none = none
as_text (some v) = as_str v

abbrev pub or_null : Option Value → Value
or_null none = null
or_null (some v) = v

abbrev pub status_of : Answer → ℕ
status_of (some (ok u)) = 201
status_of (some (err e)) = 500
status_of none = 500

abbrev pub is_failure : Answer → Bool
is_failure (some (ok u)) = false
is_failure (some (err e)) = true
is_failure none = true

abbrev pub bulk_item : Text → ℕ → Value
bulk_item index status = object (
    entry (ascii "index")
      (object
        (entry (ascii "_index") (string index) (entry (ascii "status") (num status) no_entries)))
      no_entries)

abbrev pub bulk_body : Bool → Items → Value
bulk_body has_errors items = object (
    entry (ascii "took") (num 1)
      (entry (ascii "errors") (bool has_errors) (entry (ascii "items") (array items) no_entries)))

-- The loop over the receivers.
unfoldable pub items_of : (ℕ → Answer) → List WalRequest → Items
items_of rx [] = no_items
items_of rx (req ∷ reqs) =
    item (bulk_item req.event.index (status_of (rx req.responder))) (items_of rx reqs)

unfoldable pub has_errors_of : (ℕ → Answer) → List WalRequest → Bool
has_errors_of rx [] = false
has_errors_of rx (req ∷ reqs) = is_failure (rx req.responder) || has_errors_of rx reqs

-- With the parser of `serde_json`.
module _ (from_str : Text → Option Value) where
  unfoldable pub index_of : Text → Text
  index_of meta_line =
      text_or_default
        (as_text (field (ascii "_index") (get (or_null (from_str meta_line)) (ascii "index"))))

  abbrev pub request : ℕ → Text → Text → WalRequest
  request n meta_line doc_line = record {
    event = record { index = index_of meta_line; payload = doc_line };
    responder = n;
  }

  -- The loop over the lines: the requests that were sent, and whether all were taken by the channel;
  -- `accepts n` is what the channel does with request `n`.
  unfoldable pub send_all : (ℕ → Bool) → ℕ → List Text → List WalRequest × Bool
  send_all accepts n [] = ([], true)
  send_all accepts n (meta_line ∷ []) = ([], true)
  send_all accepts n (meta_line ∷ doc_line ∷ lines) =
      let (reqs, all_sent) = send_all accepts (suc n) lines in
      if accepts n then (request n meta_line doc_line ∷ reqs, all_sent) else ([], false)

  abbrev pub bulk_answer : (ℕ → Answer) → List WalRequest × Bool → List WalRequest × Response
  bulk_answer rx (reqs, true) =
      (reqs, ok (200, bulk_body (has_errors_of rx reqs) (items_of rx reqs)))
  bulk_answer rx (reqs, false) = (reqs, err (500, ascii "WAL channel closed"))

  unfoldable pub bulk_handler : (ℕ → Bool) → (ℕ → Answer) → Text → List WalRequest × Response
  bulk_handler accepts rx body = bulk_answer rx (send_all accepts 0 (not_blank (lines_of body)))
