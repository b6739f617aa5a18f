-- ===== src/Lib.antt =====
-- Edgewit, a search and ingest server for small devices: a model of the parts that keep its data,
-- and what is proved of them.
--
-- A document comes in by HTTP (src/ingestion/routes.rs), is sent to the write-ahead log
-- (src/wal.rs), and only when the log has confirmed it is it answered and handed to the indexer
-- (src/indexer.rs), which writes it into the index of its name by way of the index manager
-- (src/index_manager.rs). What an index is stands in its definition (src/schema), which the
-- registry keeps (src/registry.rs). The retention worker (src/retention.rs) sends purges to the
-- indexer and deletes log files; the compaction worker (src/compaction.rs) merges the segments of
-- the indexes. Searches (src/api/search.rs) and statistics (src/api/cluster.rs) read the indexes
-- by way of the index manager. The start of the program (src/main.rs) wires all of this, and the
-- router (src/api/mod.rs) has the handlers behind the check of the API key (src/api/auth.rs).
--
-- The files, each with the code that it models:
-- - Wal: src/wal.rs. Wal.Frame and Wal.Reader have the framing and WalReader::next_frame;
--   Wal.Disk has the files, the standard library's BufWriter and system calls that may fail
--   after some bytes; Wal.Appender has WalAppender::run, cut into start, drain, commit_batch,
--   process_batch and rotate. The other children are proofs, named for what they prove.
-- - Schema: src/schema. Schema.Definition and Schema.Validation are the files of those names;
--   Schema.Builder is build_schema as the calls that it makes on the builder; Schema.FieldOrder,
--   Schema.FieldNames, Schema.Retentions and Schema.Validity are proofs.
-- - Registry: src/registry.rs. Registry.Refinement has the function from names to definitions
--   that the registry stands for; Registry.Store has the operations on one definition,
--   Registry.Loading has load_from_dir and IndexDefinition::from_file; the other children are
--   proofs.
-- - Retention: src/retention.rs. Retention.Duration, Retention.Size, Retention.Cleanup,
--   Retention.Worker and Retention.Tick have the functions; Retention.Policies,
--   Retention.Pruning and Retention.Order are proofs.
-- - Ingestion: src/ingestion. Ingestion.Document is validate_and_process_document,
--   Ingestion.Lines and Ingestion.Routes are the two handlers; Ingestion.Documents says what a
--   bulk request means to its client; Ingestion.Scanning, Ingestion.Fields,
--   Ingestion.Conformance, Ingestion.Acceptance and Ingestion.Bulk are proofs.
-- - Indexer: src/index_manager.rs and src/indexer.rs. Indexer.Engine is the interface of the
--   search library; Indexer.Manager is IndexManager; Indexer.Document, Indexer.Actor and
--   Indexer.Loop are IndexerActor; the other children are proofs.
-- - Api: src/api. Api.Auth is auth.rs, Api.Indexes is indexes.rs, Api.Query is
--   extract_query_string of search.rs; Api.Searching is the interface of the search library for
--   searches, Api.Hits has the types of a request and its answer, Api.Search is execute_search
--   and Api.Search.Handler the handler of search.rs; Api.Cluster is cluster.rs and Api.Router is
--   app_router of mod.rs. Api.Managing, Api.Persistence, Api.Search.Page, Api.Search.Ranking,
--   Api.Search.Collecting, Api.Search.Slices, Api.Search.Splitting and Api.Cluster.Counts are
--   proofs, with the descriptions of what is expected.
-- - Compaction: src/compaction.rs; Compaction.Library is the interface of the search library for
--   it, Compaction.Cycle and Compaction.Errors are proofs.
-- - Startup: src/main.rs, from the settings to the state that is shared; Startup.Reading and
--   Startup.Soundness are proofs.
-- - Pipeline: the handler of bulk requests, the log and the indexer one after the other;
--   Pipeline.Delivery is the proof.
-- - Json: the values of serde_json. Prelude: shared types, maps, numbers, and computations that
--   fail or panic.
--
-- Texts are lists of the bytes of UTF-8. Maps are lists of entries in the order of iteration. A
-- u64 or usize that the code adds up keeps its wrap-around, as in the release profile. A panic is
-- a result of its own where the code can reach one (Prelude.Attempts); the panic of the unwrap in
-- purge_old_docs stands as an error. Locks are flags that say whether they are poisoned.
--
-- The loop of the log's appender takes a bound on its rounds: one round takes at least one
-- request, so that the length of the channel is enough. The replay of a batch takes one step for
-- each frame and one for the end of the file.
--
-- Parameters: the checksum of crc32fast, the durations of chrono, the readers of serde_yaml and
-- serde_json, the search library and its world (Indexer.Engine, Api.Searching,
-- Compaction.Library), the web library's choice of a route, and how each system call ends.
--
-- Not modelled: the timing of the workers and of searches, metrics and log messages, and in
-- src/main.rs the logging and the binding of the port.
pub mod Prelude
pub mod Compaction
pub mod Wal
pub mod Json
pub mod Schema
pub mod Retention
pub mod Registry
pub mod Ingestion
pub mod Indexer
pub mod Api
pub mod Startup
pub mod Pipeline
