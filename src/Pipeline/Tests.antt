-- ===== src/Pipeline/Tests.antt =====
-- A bulk request of two documents on its way to an indexer.
use edgewit.Prelude.{ℕ, ◌≡◌, refl, false, [], ok}
use edgewit.Wal.Appender.{WalAppender}
use edgewit.Wal.Tests.{checksum, appender}
use edgewit.Ingestion.Lines.{body_of}
use edgewit.Ingestion.Routes.{Response}
use edgewit.Ingestion.Documents.{lines, sent, summary}
use edgewit.Ingestion.Tests.{from_str, two_documents, are_documents, accepting}
use edgewit.Indexer.Actor.{IndexerActor}
use edgewit.Indexer.Loop
use edgewit.Indexer.Tests.{engine, actor}
use edgewit.Pipeline.{bulk}
use edgewit.Pipeline.Delivery.{created_items, deliveries, bulk_delivers}

bulk_delivers_example :
    let result : Response × WalAppender × (IndexerActor engine × ℕ) =
      bulk engine from_str checksum accepting (body_of (lines two_documents)) (appender []) actor in
    (result.0 ≡ ok (200, summary false (created_items two_documents)))
    × (result.2 ≡ Loop.run engine (deliveries 0 (sent 0 two_documents)) actor)
bulk_delivers_example =
    bulk_delivers engine from_str checksum accepting two_documents (appender []) actor are_documents
      (λ i. refl) refl
