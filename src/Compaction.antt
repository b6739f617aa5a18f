-- ===== src/Compaction.antt =====
-- src/compaction.rs: the worker that merges the segments of the indexes.
pub mod Cycle
pub mod Errors
pub mod Tests
use edgewit.Prelude.{
  ℕ, Bool, true, false, ◌&&◌, Option, none, some, List, [], ◌∷◌, ◌++◌, Text, ascii, ltb, length,
  if◌then◌else◌, Result, ok, err,
}
use edgewit.Prelude.Numbers.{parse_u64}

-- The library's error: a lock that is held, or another.
pub data TantivyError : Type 0 where
  lock_failure : TantivyError
  other_error : Text → TantivyError

pub data CompactionError : Type 0 where
  io : Text → CompactionError
  tantivy : TantivyError → CompactionError
  join : Text → CompactionError

-- The calls of the search library that the worker makes. A writer that is dropped gives up the lock
-- of its index.
pub record Library : Type 1 where
  pub World : Type 0
  pub Index : Type 0
  pub Reader : Type 0
  pub Segment : Type 0
  pub Writer : Type 0
  pub open_in_dir : List Text → World → Result TantivyError Index × World
  pub reader : Index → World → Result TantivyError Reader × World
  -- the identifiers of `segment_readers()`
  pub segments : Reader → World → List Segment
  -- `writer_with_num_threads(1, 15_000_000)`
  pub writer : Index → World → Result TantivyError Writer × World
  -- `merge(..).wait()`
  pub merge : Writer → List Segment → World → Result TantivyError (Unit {0}) × World
  pub commit : Writer → World → Result TantivyError (Unit {0}) × World
  pub wait_merging_threads : Writer → World → Result TantivyError (Unit {0}) × World
  pub drop_writer : Writer → World → World

pub record CompactionWorker : Type 0 where
  pub data_dir : List Text
  pub interval : ℕ
  pub min_segments : ℕ

abbrev pub or_default : ℕ → Option ℕ → ℕ
or_default d none = d
or_default d (some n) = n

abbrev pub parsed_or : ℕ → Option Text → ℕ
parsed_or d none = d
parsed_or d (some v) = or_default d (parse_u64 v)

-- `var` gives the variables of the environment; a `usize` is a `u64`.
unfoldable pub new : (Text → Option Text) → List Text → CompactionWorker
new var data_dir = record {
  data_dir = data_dir;
  interval = parsed_or 300 (var (ascii "EDGEWIT_COMPACTION_INTERVAL_SECS"));
  min_segments = parsed_or 10 (var (ascii "EDGEWIT_MERGE_MIN_SEGMENTS"));
}

-- An entry of the directory `indexes`, and whether it holds a `meta.json`.
pub record Entry : Type 0 where
  pub name : Text
  pub is_dir : Bool
  pub has_meta : Bool

-- What `exists` and `read_dir` show of the directory; an entry that cannot be read is an error.
pub data IndexesDir : Type 0 where
  missing : IndexesDir
  unreadable : Text → IndexesDir
  entries : List (Result Text Entry) → IndexesDir

module _ (lib : Library) where
  abbrev pub Step : Type 0 → Type 0
  Step A = Result CompactionError A × lib.World

  -- `call(..)?` and what follows it. A task of `spawn_blocking` is never cancelled and a panic ends
  -- the process, so that to wait for it gives what its closure gives.
  abbrev pub attempt :
      {A B : Type 0} → Result TantivyError A × lib.World → (A → lib.World → Step B) → Step B
  attempt (ok a, world) rest = rest a world
  attempt (err e, world) rest = (err (tantivy e), world)

  -- The last steps; their errors are only logged.
  abbrev pub waited : Result TantivyError (Unit {0}) × lib.World → Step (Unit {0})
  waited (_, world) = (ok tt, world)

  abbrev pub committed : lib.Writer → Result TantivyError (Unit {0}) × lib.World → Step (Unit {0})
  committed writer (ok u, world) = waited (lib.wait_merging_threads writer world)
  committed writer (err e, world) = (ok tt, lib.drop_writer writer world)

  abbrev pub merged : lib.Writer → Result TantivyError (Unit {0}) × lib.World → Step (Unit {0})
  merged writer (ok u, world) = committed writer (lib.commit writer world)
  merged writer (err e, world) = (ok tt, lib.drop_writer writer world)

  -- The closure of the second task.
  abbrev pub with_writer :
      List lib.Segment → Result TantivyError lib.Writer × lib.World → Step (Unit {0})
  with_writer segment_ids (ok writer, world) = merged writer (lib.merge writer segment_ids world)
  with_writer segment_ids (err lock_failure, world) = (ok tt, world)
  with_writer segment_ids (err (other_error e), world) = (err (tantivy (other_error e)), world)

  abbrev pub with_segments : ℕ → lib.Index → List lib.Segment → lib.World → Step (Unit {0})
  with_segments min_segments index segment_ids world =
      if ltb (length segment_ids) min_segments
      then (ok tt, world)
      else with_writer segment_ids (lib.writer index world)

  unfoldable pub compact_index : CompactionWorker → List Text → lib.World → Step (Unit {0})
  compact_index self path world = attempt (lib.open_in_dir path world) (λ index opened.
      attempt (lib.reader index opened)
        (λ reader read. with_segments self.min_segments index (lib.segments reader read) read))

  abbrev pub index_path : CompactionWorker → Entry → List Text
  index_path self entry = self.data_dir ++ (ascii "indexes" ∷ entry.name ∷ [])

  -- An error of `compact_index` is only logged.
  abbrev pub visit : CompactionWorker → Entry → lib.World → lib.World
  visit self entry world =
      if entry.is_dir && entry.has_meta
      then (compact_index self (index_path self entry) world).1
      else world

  unfoldable pub visit_all :
      CompactionWorker → List (Result Text Entry) → lib.World → Step (Unit {0})
  visit_all self [] world = (ok tt, world)
  visit_all self (err e ∷ rest) world = (err (io e), world)
  visit_all self (ok entry ∷ rest) world = visit_all self rest (visit self entry world)

  unfoldable pub run_cycle : CompactionWorker → IndexesDir → lib.World → Step (Unit {0})
  run_cycle self missing world = (ok tt, world)
  run_cycle self (unreadable e) world = (err (io e), world)
  run_cycle self (entries es) world = visit_all self es world

  -- `run`, for as many ticks as there are views of the directory; an error is only logged.
  unfoldable pub run : CompactionWorker → List IndexesDir → lib.World → lib.World
  run self [] world = world
  run self (dir ∷ dirs) world = run self dirs (run_cycle self dir world).1
