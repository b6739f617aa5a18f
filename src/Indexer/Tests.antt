-- ===== src/Indexer/Tests.antt =====
-- An actor over a small search library, whose world is the log of its calls.
use edgewit.Prelude.{
  ℕ, ◌≡◌, refl, false, none, some, List, [], ◌∷◌, Text, Assoc, ascii, text_eq, lookup, insert,
  contains_key, if◌then◌else◌, ok, HasUniqueKeys,
}
use edgewit.Prelude.Numbers.{pos}
use edgewit.Json.{Value, string, object, entry, no_entries}
use edgewit.Schema.Tests.{index, two_fields}
use edgewit.Registry.Store.{IndexRegistry, get}
use edgewit.Wal.Frame.{IngestEvent}
use edgewit.Indexer.Engine.{Engine}
use edgewit.Indexer.Manager.{IndexManager, get_or_create_index, index_path}
use edgewit.Indexer.Document.{root_of, collect}
use edgewit.Indexer.Actor.{IndexerActor, new, ensure_writer, process_event, setting}
use edgewit.Indexer.Loop.{
  Wakeup, received, purge, tick, run, run_from, turn, commit_all, commit_each, or_insert,
  purge_old_docs,
}
use edgewit.Indexer.Growth.{Marked}
use edgewit.Indexer.Marks.{process_event-Marks, purge_old_docs-Marks}
use edgewit.Indexer.Readiness.{IsReady, IsBounded, run_stays-IsReady}
use edgewit.Indexer.Roots.{mapped, lookup-root_of}
use edgewit.Indexer.Caching.{get_or_create_index_again}

-- What the library was asked to do.
pub data Asked : Type 0 where
  opened : List Text → Asked
  added deleted : Asked
  committed : ℕ → Asked

abbrev payload : Assoc Value
payload = (ascii "msg", string (ascii "hi")) ∷ (ascii "x", string (ascii "y")) ∷ []

abbrev pub engine : Engine
engine = record {
  World = List Asked;
  Index = ℕ;
  Reader = ℕ;
  Writer = ℕ;
  Document = Assoc Value;
  Field = Text;
  open_or_create = λ path schema world. (ok 1, opened path ∷ world);
  build_reader = λ index blocks world. (ok index, world);
  make_writer = λ index budget segments world. (ok index, world);
  get_field = λ index name. some name;
  add_document = λ writer document world. (ok tt, added ∷ world);
  delete_before = λ writer field cutoff world. (ok tt, deleted ∷ world);
  commit = λ writer payload world. (ok tt, committed payload ∷ world);
  from_slice = λ bytes. ok (object (entry (ascii "msg") (string (ascii "hi")) no_entries));
  to_text = λ value. none;
  parse_json = λ index root. ok root;
  var = λ name. none;
}

abbrev pub registry : IndexRegistry
registry = record { indexes = (ascii "logs", index two_fields none) ∷ []; poisoned = false }

abbrev pub manager : IndexManager engine
manager = record {
  base_dir = ascii "data" ∷ [];
  registry = registry;
  indexes = [];
  indexes_poisoned = false;
  readers = [];
  readers_poisoned = false;
  docstore_cache_blocks = 10;
}

abbrev pub actor : IndexerActor engine
actor = record {
  manager = manager;
  writers = [];
  dirty_writers = [];
  index_memory_mb = 30;
  world = [];
}

abbrev event : IngestEvent
event = record { index = ascii "logs"; payload = [] }

process_event-Marks_example :
    Marked engine
      (ascii "logs")
      (insert (ascii "logs") 12)
      actor
      (process_event engine event 12 actor)
process_event-Marks_example = process_event-Marks engine event 12 actor

purge_old_docs-Marks_example :
    Marked engine
      (ascii "logs")
      (or_insert engine (ascii "logs") 0)
      actor
      (purge_old_docs engine (ascii "logs") (pos 7) actor)
purge_old_docs-Marks_example = purge_old_docs-Marks engine (ascii "logs") (pos 7) actor

abbrev wakeups : List Wakeup
wakeups =
    received (record { event = event; wal_offset = 12 })
    ∷ tick
    ∷ purge (ascii "logs") (pos 7)
    ∷ received (record { event = record { index = ascii "none"; payload = [] }; wal_offset = 20 })
    ∷ []

-- The event is committed at its offset, and the purge waits for the next tick.
wakeups_asked :
    (run engine wakeups actor).0.world
    ≡ deleted
      ∷ committed 12
      ∷ added
      ∷ opened (ascii "data" ∷ ascii "indexes" ∷ ascii "logs" ∷ [])
      ∷ []
unfolding run turn run_from process_event ensure_writer purge_old_docs commit_all commit_each
    get_or_create_index index_path root_of collect lookup insert contains_key text_eq get
wakeups_asked = refl

run_stays-IsReady_example :
    IsReady engine (run engine wakeups (new engine manager 30 [])).0
    × IsBounded engine
        (setting engine (ascii "EDGEWIT_COMMIT_INTERVAL_DOCS") 10000)
        (run engine wakeups (new engine manager 30 [])).1
run_stays-IsReady_example = run_stays-IsReady engine manager 30 [] wakeups

unique_payload : HasUniqueKeys payload
unfolding lookup text_eq
unique_payload = (refl, (refl, tt))

not_dynamic : text_eq (ascii "_dynamic") (ascii "msg") ≡ false
unfolding text_eq
not_dynamic = refl

lookup-root_of_example :
    lookup (ascii "msg") (root_of engine (index two_fields none) (string (ascii "all")) payload) ≡ (
      if text_eq (ascii "_source") (ascii "msg")
      then some (string (ascii "all"))
      else mapped (index two_fields none) (ascii "msg") (lookup (ascii "msg") payload))
lookup-root_of_example =
    lookup-root_of engine (index two_fields none) (string (ascii "all")) payload (ascii "msg")
      unique_payload not_dynamic

opens : (get_or_create_index engine (ascii "logs") manager []).0 ≡ ok 1
unfolding get_or_create_index lookup text_eq get
opens = refl

abbrev emptied : IndexManager engine
emptied = record (get_or_create_index engine (ascii "logs") manager []).1.0 {
  registry = record { indexes = []; poisoned = false };
}

get_or_create_index_again_example :
    get_or_create_index engine (ascii "logs") emptied (added ∷ []) ≡ (ok 1, (emptied, added ∷ []))
get_or_create_index_again_example =
    get_or_create_index_again engine (ascii "logs") 1 manager [] refl opens
      (record { indexes = []; poisoned = false }) (added ∷ [])
