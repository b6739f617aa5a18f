-- ===== src/Pipeline/Delivery.antt =====
-- What becomes of a bulk request when nothing fails, from src/ingestion/routes.rs to src/indexer.rs.
use edgewit.Prelude.{
  ℕ, suc, ◌≡◌, refl, ap, ◌∙◌, Bool, true, false, inl, inr, ◌⊎◌, Option, none, some, List, [], ◌∷◌,
  Text, ok, All, length, ◌==◌, if◌then◌else◌, arith,
}
use edgewit.Json.{Value, Items, item, no_items}
use edgewit.Wal.Frame.{frame_len, add64}
use edgewit.Wal.Appender.{WalRequest, WalAppender, respond, forward}
use edgewit.Wal.Batches.{offsets, acknowledgements}
use edgewit.Wal.Reliable.{IsReliable, run_acknowledges}
use edgewit.Ingestion.Lines.{body_of}
use edgewit.Ingestion.Routes.{Answer, Response, bulk_handler}
use edgewit.Ingestion.Documents.{
  BulkDocument, lines, sent, IsConfirmed, Reports, done, confirmed, failed, AllConfirmed, summary,
  report, IsDocument,
}
use edgewit.Ingestion.Bulk.{bulk_handler_outcome}
use edgewit.Indexer.Engine.{Engine}
use edgewit.Indexer.Loop.{Wakeup, received}
use edgewit.Indexer.Loop
use edgewit.Indexer.Actor.{IndexerActor}
use edgewit.Pipeline.{answer_for, wakeups, bulk}

-- The events of the requests, each with the offset behind its frame.
abbrev pub deliveries : ℕ → List WalRequest → List Wakeup
deliveries o [] = []
deliveries o (r ∷ rs) =
    let behind = add64 o (frame_len r.event) in
    received (record { event = r.event; wal_offset = behind }) ∷ deliveries behind rs

wakeups-acknowledgements :
    (o : ℕ) (rs : List WalRequest) → wakeups (acknowledgements (offsets o rs)) ≡ deliveries o rs
unfolding wakeups
wakeups-acknowledgements o [] = refl
wakeups-acknowledgements o (r ∷ rs) =
    ap (λ l. received (record { event = r.event; wal_offset = add64 o (frame_len r.event) }) ∷ l)
      (wakeups-acknowledgements (add64 o (frame_len r.event)) rs)

-- An item of status 201 for each document, with its index.
abbrev pub created_items : List BulkDocument → Items
created_items [] = no_items
created_items (d ∷ docs) = item (report d.index 201) (created_items docs)

abbrev IsAcknowledged : (ℕ → Answer) → WalRequest → Type 0
IsAcknowledged rx req = IsConfirmed (rx req.responder)

-- Whatever else is confirmed, a request that is confirmed gets that for its answer.
answer_for_head :
    (b : Bool) (rest : Answer)
    → (b ≡ true) ⊎ (rest ≡ some (ok tt))
    → (if b then some (ok tt) else rest) ≡ some (ok tt)
answer_for_head true rest h = refl
answer_for_head false rest (inl e) = absurd (cc e)
answer_for_head false rest (inr e) = e

All-weaken :
    (o : ℕ) (r : WalRequest) (rs qs : List WalRequest)
    → All (IsAcknowledged (answer_for (acknowledgements (offsets o rs)))) qs
    → All
        (IsAcknowledged (
          answer_for (
            respond r.responder (ok tt)
            ∷ forward (record { event = r.event; wal_offset = o })
            ∷ acknowledgements (offsets o rs))))
        qs
unfolding answer_for
All-weaken o r rs [] h = tt
All-weaken o r rs (q ∷ qs) (a, h) =
    (answer_for_head (r.responder == q.responder) _ (inr a), All-weaken o r rs qs h)

All-IsAcknowledged :
    (o : ℕ) (rs : List WalRequest)
    → All (IsAcknowledged (answer_for (acknowledgements (offsets o rs)))) rs
unfolding answer_for
All-IsAcknowledged o [] = tt
All-IsAcknowledged o (r ∷ rs) =
    let behind = add64 o (frame_len r.event) in
    (
      answer_for_head (r.responder == r.responder) _ (inl (ground arith)),
      All-weaken behind r rs rs (All-IsAcknowledged behind rs),
    )

AllConfirmed-sent :
    (rx : ℕ → Answer) (n : ℕ) (docs : List BulkDocument)
    → All (IsAcknowledged rx) (sent n docs)
    → AllConfirmed rx n docs
AllConfirmed-sent rx n [] h = tt
AllConfirmed-sent rx n (d ∷ docs) (a, h) = (a, AllConfirmed-sent rx (suc n) docs h)

Reports-created_items :
    (rx : ℕ → Answer) (n : ℕ) (docs : List BulkDocument) (items : Items)
    → AllConfirmed rx n docs
    → Reports rx n docs items
    → items ≡ created_items docs
Reports-created_items rx n [] no_items c done = refl
Reports-created_items rx n [] (item v items) c r = elim r [ ]
Reports-created_items rx n (d ∷ docs) no_items c r = elim r [ ]
Reports-created_items rx n (d ∷ docs) (item v items) (a, c) (confirmed b later) =
    ap (item (report d.index 201)) (Reports-created_items rx (suc n) docs items c later)
Reports-created_items rx n (d ∷ docs) (item v items) (a, c) (failed b later) = absurd (b a)

module _ (lib : Engine) (from_str : Text → Option Value) (crc : List ℕ → ℕ) where
  -- If the lines of the documents of a bulk body are neither blank nor hold line ends, each
  -- document is for the index that its action line names or for `default` if it names none, the
  -- channel takes every document and no system call of the log fails, then the answer is 200 with
  -- `errors` false and for each document an item with its index and the status 201, and the
  -- indexer goes through the documents in order, each with its index, the bytes of its line and
  -- the offset behind its frame.
  pub bulk_delivers :
      (accepts : ℕ → Bool) (docs : List BulkDocument) (log : WalAppender)
      (indexer : IndexerActor lib)
      → All (IsDocument from_str) docs
      → ((i : ℕ) → accepts i ≡ true)
      → IsReliable log.writer
      → let result : Response × WalAppender × (IndexerActor lib × ℕ) =
          bulk lib from_str crc accepts (body_of (lines docs)) log indexer in
        (result.0 ≡ ok (200, summary false (created_items docs)))
        × (result.2 ≡ Loop.run lib (deliveries log.current_offset (sent 0 docs)) indexer)
  unfolding bulk
  bulk_delivers accepts docs log indexer h a works =
      let reqs = sent 0 docs in
      let acks = acknowledgements (offsets log.current_offset reqs) in
      let (_, _, silent, _, _) = bulk_handler_outcome from_str accepts (λ id. none) docs h a in
      let sends : (bulk_handler from_str accepts (λ id. none) (body_of (lines docs))).0 ≡ reqs =
        ap (λ r. r.0) silent in
      let (errors, items, answered, reports, clean) =
        bulk_handler_outcome from_str accepts (answer_for acks) docs h a in
      let logged = run_acknowledges crc (length reqs) reqs log (omega arith) works in
      let all =
        AllConfirmed-sent (answer_for acks) 0 docs (All-IsAcknowledged log.current_offset reqs) in
      rw (sends, logged)
        (
          ap (λ r. r.1) answered
              ∙ (rw (clean.1 all, Reports-created_items (answer_for acks) 0 docs items all reports)
                  refl),
          ap (λ w. Loop.run lib w indexer) (wakeups-acknowledgements log.current_offset reqs),
        )
