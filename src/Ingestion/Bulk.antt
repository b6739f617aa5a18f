-- ===== src/Ingestion/Bulk.antt =====
-- What `bulk_handler` of src/ingestion/routes.rs sends for a body of documents, and what it answers.
use edgewit.Prelude.{
  ℕ, zero, suc, ◌+◌, ◌<◌, ◌≡◌, ◌↔◌, refl, sym, ap, ◌∙◌, Bool, true, false, ◌||◌, Option, none, some,
  List, [], ◌∷◌, Text, ascii, ok, err, All, arith, length, take,
}
use edgewit.Json.{Value, Items, item}
use edgewit.Ingestion.Lines.{body_of, IsLine, lines_of-body_of}
use edgewit.Ingestion.Routes.{
  Answer, send_all, bulk_answer, bulk_handler, items_of, has_errors_of, is_failure, status_of,
  bulk_item,
}
use edgewit.Ingestion.Documents.{
  BulkDocument, lines, sent, IsConfirmed, Reports, done, confirmed, failed, AllConfirmed, summary,
  IsDocument, IsFor-index_of,
}

items_of-Reports :
    (rx : ℕ → Answer) (n : ℕ) (docs : List BulkDocument)
    → Reports rx n docs (items_of rx (sent n docs))
unfolding items_of
items_of-Reports rx n [] = done
items_of-Reports rx n (d ∷ docs) = by_answer (rx n) refl (items_of-Reports rx (suc n) docs)
  where
    by_answer :
        (a : Answer)
        → rx n ≡ a
        → Reports rx (suc n) docs (items_of rx (sent (suc n) docs))
        → Reports rx n
            (d ∷ docs)
            (item (bulk_item d.index (status_of a)) (items_of rx (sent (suc n) docs)))
    by_answer (some (ok u)) e later = confirmed e later
    by_answer (some (err m)) e later = failed (λ c. absurd (cc (e, c))) later
    by_answer none e later = failed (λ c. absurd (cc (e, c))) later

has_errors_of_iff :
    (rx : ℕ → Answer) (n : ℕ) (docs : List BulkDocument)
    → (has_errors_of rx (sent n docs) ≡ false) ↔ AllConfirmed rx n docs
unfolding has_errors_of
has_errors_of_iff rx n [] = (λ h. tt, λ h. refl)
has_errors_of_iff rx n (d ∷ docs) = by_answer (rx n) (has_errors_of_iff rx (suc n) docs)
  where
    by_answer :
        (a : Answer)
        → (has_errors_of rx (sent (suc n) docs) ≡ false) ↔ AllConfirmed rx (suc n) docs
        → (is_failure a || has_errors_of rx (sent (suc n) docs) ≡ false)
          ↔ (IsConfirmed a × AllConfirmed rx (suc n) docs)
    by_answer (some (ok u)) later = (λ h. (refl, later.0 h), λ c. later.1 c.1)
    by_answer (some (err m)) later = ground arith
    by_answer none later = ground arith

plus_zero : (n : ℕ) → n + 0 ≡ n
plus_zero n = omega arith

zero_plus : (n : ℕ) → 0 + n ≡ n
zero_plus n = omega arith

plus_suc : (n i : ℕ) → n + suc i ≡ suc n + i
plus_suc n i = omega arith

module _ (from_str : Text → Option Value) where
  All-lines : (docs : List BulkDocument) → All (IsDocument from_str) docs → All IsLine (lines docs)
  All-lines [] h = tt
  All-lines (d ∷ docs) ((m, p, f), h) = (m, (p, All-lines docs h))

  send_all-lines :
      (accepts : ℕ → Bool) (n : ℕ) (docs : List BulkDocument)
      → All (IsDocument from_str) docs
      → ((i : ℕ) → accepts i ≡ true)
      → send_all from_str accepts n (lines docs) ≡ (sent n docs, true)
  unfolding send_all
  send_all-lines accepts n [] h a = refl
  send_all-lines accepts n (d ∷ docs) ((m, p, f), h) a =
      rw (send_all-lines accepts (suc n) docs h a, a n, IsFor-index_of from_str d.action d.index f)
        refl

  send_all_closed :
      (accepts : ℕ → Bool) (n k : ℕ) (docs : List BulkDocument)
      → All (IsDocument from_str) docs
      → k < length docs
      → ((i : ℕ) → i < k → accepts (n + i) ≡ true)
      → accepts (n + k) ≡ false
      → send_all from_str accepts n (lines docs) ≡ (take k (sent n docs), false)
  unfolding send_all
  send_all_closed accepts n k [] d b h c = ground arith
  send_all_closed accepts n zero (d ∷ docs) ds b h c = rw (ap accepts (sym (plus_zero n)) ∙ c) refl
  send_all_closed accepts n (suc k) (d ∷ docs) ((m, p, f), ds) b h c =
      let first : accepts n ≡ true = ap accepts (sym (plus_zero n)) ∙ h 0 (ground arith) in
      let ih =
        send_all_closed accepts (suc n) k docs ds (ground arith)
          (λ i l. ap accepts (sym (plus_suc n i)) ∙ h (suc i) (ground arith))
          (ap accepts (sym (plus_suc n k)) ∙ c) in
      rw (ih, first, IsFor-index_of from_str d.action d.index f) refl

  -- For a body of documents whose lines are neither blank nor hold line ends, each for the index
  -- that its action line has as the text under `_index` in what is under `index`, or for `default`
  -- if it has none, all of which the channel takes, the handler sends for each document, in order,
  -- its index and the bytes of its document line, and answers 200 with one item for each, which
  -- has its index and 201 if the log confirmed it and 500 if not, and with `errors` false exactly
  -- if the log confirmed every one.
  pub bulk_handler_outcome :
      (accepts : ℕ → Bool) (rx : ℕ → Answer) (docs : List BulkDocument)
      → All (IsDocument from_str) docs
      → ((i : ℕ) → accepts i ≡ true)
      → (errors : Bool) × (items : Items) × (bulk_handler from_str accepts rx (body_of (lines docs))
          ≡ (sent 0 docs, ok (200, summary errors items)))
        × Reports rx 0 docs items
        × ((errors ≡ false) ↔ AllConfirmed rx 0 docs)
  unfolding bulk_handler
  bulk_handler_outcome accepts rx docs h a = (
    has_errors_of rx (sent 0 docs),
    items_of rx (sent 0 docs),
    ap (bulk_answer from_str rx) (
        ap (send_all from_str accepts 0) (lines_of-body_of (lines docs) (All-lines docs h))
        ∙ send_all-lines accepts 0 docs h a),
    items_of-Reports rx 0 docs,
    has_errors_of_iff rx 0 docs,
  )

  -- If the channel takes the first documents of a body, whose lines are neither blank nor hold
  -- line ends, and then closes, the answer is an error although the documents before were sent.
  pub bulk_handler_closed :
      (accepts : ℕ → Bool) (rx : ℕ → Answer) (k : ℕ) (docs : List BulkDocument)
      → All (IsDocument from_str) docs
      → k < length docs
      → ((i : ℕ) → i < k → accepts i ≡ true)
      → accepts k ≡ false
      → bulk_handler from_str accepts rx (body_of (lines docs))
        ≡ (take k (sent 0 docs), err (500, ascii "WAL channel closed"))
  unfolding bulk_handler
  bulk_handler_closed accepts rx k docs h b a c = ap (bulk_answer from_str rx) (
      ap (send_all from_str accepts 0) (lines_of-body_of (lines docs) (All-lines docs h))
      ∙ send_all_closed accepts 0 k docs h b (λ i l. ap accepts (zero_plus i) ∙ a i l)
          (ap accepts (zero_plus k) ∙ c))
