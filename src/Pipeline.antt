-- ===== src/Pipeline.antt =====
-- The way of a bulk request through src/ingestion/routes.rs, src/wal.rs and src/indexer.rs.
pub mod Delivery
pub mod Tests
use edgewit.Prelude.{
  ℕ, Bool, true, Option, none, some, List, [], ◌∷◌, Text, ◌==◌, if◌then◌else◌, length,
}
use edgewit.Json.{Value}
use edgewit.Wal.Appender.{WalRequest, WalAppender, Output, respond, forward}
use edgewit.Wal.Appender
use edgewit.Ingestion.Routes.{Answer, Response, bulk_handler}
use edgewit.Indexer.Engine.{Engine}
use edgewit.Indexer.Loop.{Wakeup, received}
use edgewit.Indexer.Loop
use edgewit.Indexer.Actor.{IndexerActor}

-- What the receiver of a request gets: the first answer to it, or nothing, when its sender is dropped.
unfoldable pub answer_for : List Output → ℕ → Answer
answer_for [] id = none
answer_for (respond j result ∷ sent) id = if j == id then some result else answer_for sent id
answer_for (forward event ∷ sent) id = answer_for sent id

-- What the indexer takes from its channel.
unfoldable pub wakeups : List Output → List Wakeup
wakeups [] = []
wakeups (respond id result ∷ sent) = wakeups sent
wakeups (forward event ∷ sent) = received event ∷ wakeups sent

-- The handler, the log and the indexer, one after the other: the answer, the log and the indexer
-- after it. The requests that the handler sends do not depend on the answers that it gets.
unfoldable pub bulk :
    (lib : Engine)
    → (Text → Option Value)
    → (List ℕ → ℕ)
    → (ℕ → Bool)
    → Text
    → WalAppender
    → IndexerActor lib
    → Response × WalAppender × (IndexerActor lib × ℕ)
bulk lib from_str crc accepts body log indexer =
    let reqs = (bulk_handler from_str accepts (λ id. none) body).0 in
    let (sent, log') = Appender.run crc (length reqs) reqs log in
    (
      (bulk_handler from_str accepts (answer_for sent) body).1,
      log',
      Loop.run lib (wakeups sent) indexer,
    )
