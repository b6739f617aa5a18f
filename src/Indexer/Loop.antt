-- ===== src/Indexer/Loop.antt =====
-- The rest of `IndexerActor` of src/indexer.rs: purging, committing and the loop of `run`.
use edgewit.Prelude.{
  ℕ, ◌+◌, ◌%◌, ◌^◌, Bool, true, false, Option, none, some, List, [], ◌∷◌, Text, Assoc, ascii,
  lookup, insert, contains_key, leb, if◌then◌else◌, Result, ok, err,
}
use edgewit.Prelude.Numbers.{ℤ}
use edgewit.Prelude.States.{◌>>=◌, ◌>>◌, lift, require, change}
use edgewit.Schema.Definition.{IndexDefinition, FieldDefinition, FieldType}
use edgewit.Wal.Appender.{IndexerEvent}
use edgewit.Indexer.Engine.{Engine}
use edgewit.Indexer.Actor.{
  IndexerActor, Act, calls, get_index, ensure_writer, definition_of, process_event, setting,
}

-- What `select!` of the loop has received.
pub data Wakeup : Type 0 where
  received : IndexerEvent → Wakeup
  purge : (index_name : Text) (cutoff : ℤ) → Wakeup
  tick : Wakeup

abbrev pub is_datetime : FieldType → Bool
is_datetime FieldType.datetime = true
is_datetime _ = false

-- The timestamp field has to be declared, as a datetime.
abbrev pub declared_timestamp : IndexDefinition → Option FieldDefinition → Result Text Text
declared_timestamp def none = err (ascii "Timestamp field is not declared")
declared_timestamp def (some fd) =
    if is_datetime fd.field_type
    then ok def.timestamp_field
    else err (ascii "Field must be type: datetime for retention to work")

module _ (lib : Engine) where
  -- `writers.get_mut(index_name).unwrap()`, after `ensure_writer`: the panic stands as an error.
  abbrev pub writer_of : Text → Act lib lib.Writer
  writer_of index_name self = require (ascii "unwrap") (lookup index_name self.writers) self

  -- `dirty_writers.entry(index_name).or_insert(0)`
  abbrev pub or_insert : Text → ℕ → Assoc ℕ → Assoc ℕ
  or_insert k v m = if contains_key k m then m else insert k v m

  abbrev pub delete_old : Text → ℤ → Text → Act lib (Unit {0})
  delete_old index_name cutoff timestamp_field = do
    ensure_writer lib index_name
    index ← get_index lib index_name
    ts_field ←
        require (ascii "Field missing from Tantivy schema") (lib.get_field index timestamp_field)
    writer ← writer_of index_name
    calls lib (lib.delete_before writer ts_field cutoff)
    change (λ self. record self { dirty_writers = or_insert index_name 0 self.dirty_writers })

  unfoldable pub purge_old_docs : Text → ℤ → Act lib (Unit {0})
  purge_old_docs index_name cutoff = do
    def ← definition_of lib index_name
    timestamp_field ← lift (declared_timestamp def (lookup def.timestamp_field def.fields))
    delete_old index_name cutoff timestamp_field

  -- One pass of the loop of `commit_all`; an error is only logged.
  abbrev pub commit_with : ℕ → Option lib.Writer → lib.World → lib.World
  commit_with offset none world = world
  commit_with offset (some writer) world = (lib.commit writer offset world).1

  unfoldable pub commit_each : Assoc lib.Writer → Assoc ℕ → lib.World → lib.World
  commit_each writers [] world = world
  commit_each writers ((index_name, offset) ∷ dirty) world =
      commit_each writers dirty (commit_with offset (lookup index_name writers) world)

  unfoldable pub commit_all : IndexerActor lib → IndexerActor lib
  commit_all self = record self {
    dirty_writers = [];
    world = commit_each self.writers self.dirty_writers self.world;
  }

  abbrev pub counted : Result Text (Unit {0}) → ℕ → ℕ
  counted (ok u) docs_since_commit = (docs_since_commit + 1) % 2 ^ 64
  counted (err e) docs_since_commit = docs_since_commit

  abbrev pub commit_if_full : ℕ → ℕ → IndexerActor lib → IndexerActor lib × ℕ
  commit_if_full limit docs_since_commit self =
      if leb limit docs_since_commit then (commit_all self, 0) else (self, docs_since_commit)

  abbrev pub after_event : ℕ → ℕ → Result Text (Unit {0}) × IndexerActor lib → IndexerActor lib × ℕ
  after_event limit docs_since_commit (r, self) =
      commit_if_full limit (counted r docs_since_commit) self

  abbrev pub commit_if_dirty : Assoc ℕ → ℕ → IndexerActor lib → IndexerActor lib × ℕ
  commit_if_dirty [] docs_since_commit self = (self, docs_since_commit)
  commit_if_dirty (d ∷ dirty) docs_since_commit self = (commit_all self, 0)

  -- One turn of the loop, with `commit_interval_docs` and `docs_since_commit`.
  unfoldable pub turn : ℕ → Wakeup → IndexerActor lib × ℕ → IndexerActor lib × ℕ
  turn limit (received req) (self, docs_since_commit) =
      after_event limit docs_since_commit (process_event lib req.event req.wal_offset self)
  turn limit (purge index_name cutoff) (self, docs_since_commit) =
      ((purge_old_docs index_name cutoff self).1, docs_since_commit)
  turn limit tick (self, docs_since_commit) =
      commit_if_dirty self.dirty_writers docs_since_commit self

  unfoldable pub run_from : ℕ → List Wakeup → IndexerActor lib × ℕ → IndexerActor lib × ℕ
  run_from limit [] s = s
  run_from limit (w ∷ wakeups) s = run_from limit wakeups (turn limit w s)

  unfoldable pub run : List Wakeup → IndexerActor lib → IndexerActor lib × ℕ
  run wakeups self =
      run_from (setting lib (ascii "EDGEWIT_COMMIT_INTERVAL_DOCS") 10000) wakeups (self, 0)
