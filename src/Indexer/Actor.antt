-- ===== src/Indexer/Actor.antt =====
-- `IndexerActor` of src/indexer.rs.
use edgewit.Prelude.{
  ℕ, ◌*◌, ◌%◌, ◌^◌, Option, none, some, [], Text, Assoc, ascii, lookup, insert, contains_key,
  if◌then◌else◌, Result, ok, err,
}
use edgewit.Prelude.Numbers.{parse_u64}
use edgewit.Prelude.States.{Stateful, ◌>>=◌, ◌>>◌, lift, require, change}
use edgewit.Json.{Value, object, to_assoc}
use edgewit.Registry.Store.{get}
use edgewit.Schema.Definition.{IndexDefinition}
use edgewit.Wal.Frame.{IngestEvent}
use edgewit.Indexer.Engine.{Engine}
use edgewit.Indexer.Manager.{IndexManager, Managed, get_or_create_index}
use edgewit.Indexer.Document.{root_of}

module _ (lib : Engine) where
  -- The registry is shared with the manager; the channels are the list of wakeups.
  pub record IndexerActor : Type 0 where
    pub manager : IndexManager lib
    pub writers : Assoc lib.Writer
    pub dirty_writers : Assoc ℕ
    pub index_memory_mb : ℕ
    pub world : lib.World

  unfoldable pub new : IndexManager lib → ℕ → lib.World → IndexerActor
  new manager index_memory_mb world = record {
    manager = manager;
    writers = [];
    dirty_writers = [];
    index_memory_mb = index_memory_mb;
    world = world;
  }

  abbrev pub Act : Type 0 → Type 0
  Act A = Stateful IndexerActor A

  abbrev pub parsed_or : ℕ → Option ℕ → ℕ
  parsed_or default none = default
  parsed_or default (some n) = n

  abbrev pub setting_of : ℕ → Option Text → ℕ
  setting_of default none = default
  setting_of default (some s) = parsed_or default (parse_u64 s)

  -- A number from the environment, or the default.
  abbrev pub setting : Text → ℕ → ℕ
  setting name default = setting_of default (lib.var name)

  abbrev pub managed : IndexerActor → Managed lib lib.Index → Result Text lib.Index × IndexerActor
  managed self (r, (manager, world)) = (r, record self { manager = manager; world = world })

  abbrev pub get_index : Text → Act lib.Index
  get_index index_name self =
      managed self (get_or_create_index lib index_name self.manager self.world)

  abbrev pub worldly :
      {A : Type 0} → IndexerActor → Result Text A × lib.World → Result Text A × IndexerActor
  worldly self (r, world) = (r, record self { world = world })

  -- A call of the library.
  abbrev pub calls : {A : Type 0} → (lib.World → Result Text A × lib.World) → Act A
  calls f self = worldly self (f self.world)

  abbrev pub make_writer : lib.Index → Act lib.Writer
  make_writer index self =
      calls
        (lib.make_writer index ((self.index_memory_mb * 1000000) % 2 ^ 64)
          (setting (ascii "EDGEWIT_MERGE_MIN_SEGMENTS") 10))
        self

  abbrev pub open_writer : Text → Act (Unit {0})
  open_writer index_name = do
    index ← get_index index_name
    writer ← make_writer index
    change (λ self. record self { writers = insert index_name writer self.writers })

  unfoldable pub ensure_writer : Text → Act (Unit {0})
  ensure_writer index_name self =
      if contains_key index_name self.writers then (ok tt, self) else open_writer index_name self

  abbrev pub definition_of : Text → Act IndexDefinition
  definition_of index_name self =
      require (ascii "Unknown index") (get self.manager.registry index_name) self

  abbrev pub as_entries : Value → Result Text (Assoc Value)
  as_entries (object es) = ok (to_assoc es)
  as_entries _ = err (ascii "Payload must be a JSON object")

  abbrev pub add_to : lib.Document → Option lib.Writer → Act (Unit {0})
  add_to doc none self = (ok tt, self)
  add_to doc (some writer) self = calls (lib.add_document writer doc) self

  abbrev pub add : Text → lib.Document → Act (Unit {0})
  add index_name doc self = add_to doc (lookup index_name self.writers) self

  abbrev pub mark_dirty : Text → ℕ → IndexerActor → IndexerActor
  mark_dirty index_name wal_offset self = record self {
    dirty_writers = insert index_name wal_offset self.dirty_writers;
  }

  abbrev pub index_document :
      IngestEvent → ℕ → Value → IndexDefinition → Assoc Value → Act (Unit {0})
  index_document event wal_offset source def map = do
    ensure_writer event.index
    index ← get_index event.index
    doc ← lift (lib.parse_json index (root_of lib def source map))
    add event.index doc
    change (mark_dirty event.index wal_offset)

  unfoldable pub process_event : IngestEvent → ℕ → Act (Unit {0})
  process_event event wal_offset = do
    def ← definition_of event.index
    source ← lift (lib.from_slice event.payload)
    map ← lift (as_entries source)
    index_document event wal_offset source def map
