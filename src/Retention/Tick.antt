-- ===== src/Retention/Tick.antt =====
-- `run_retention_worker` of src/retention.rs: what it does at each tick.
use edgewit.Prelude.{
  ℕ, ◌^◌, ◌<◌, ◌≡◌, ◌+◌, refl, ap, ◌∙◌, arith, Bool, true, false, Option, none, some, List, [], ◌∷◌,
  Text, ltb,
}
use mathlib.Core.List.{Perm}
use mathlib.Core.Option.{some-injective}
use edgewit.Schema.Definition.{IndexDefinition}
use edgewit.Retention.Duration.{Chrono}
use edgewit.Retention.Size.{RetentionConfig, Nodes, dir_size}
use edgewit.Retention.Cleanup.{
  DirEntry, WalFile, wal_files, insert_by_start, sort_by_start, cleanup_wals,
}
use edgewit.Retention.Order.{IsAscending, sort_by_start-IsAscending, sort_by_start-perm}
use edgewit.Retention.Pruning.{all_removable, sum, Cleaned, cleanup_files-Cleaned}
use edgewit.Retention.Worker.{PurgeCommand, apply_retention, policies, apply_retention-policies}

-- What the worker finds at a tick: the definitions, the directory `indexes` and the log's directory.
pub record View : Type 0 where
  pub definitions : List IndexDefinition
  pub indexes : Option Nodes
  pub log_dir : Option (List DirEntry)

-- The commands sent; whether a warning says that the indexes are too large; the log files that were
-- deleted and the size of the others.
pub record Checked (Instant : Type 0) : Type 0 where
  pub commands : List (PurgeCommand Instant)
  pub too_large : Bool
  pub deleted : List WalFile
  pub left : ℕ

module _ (c : Chrono) (Instant : Type 0) (before_now : c.Duration → Option Instant)
    (removable : Text → Bool) where
  abbrev pub after_purges :
      RetentionConfig → View → List (PurgeCommand Instant) × Bool → Option (Checked Instant)
  after_purges config view (commands, false) = none
  after_purges config view (commands, true) =
      let (deleted, left) = cleanup_wals removable view.log_dir 0 config.max_wal_bytes in
      some (record {
        commands = commands;
        too_large = ltb config.max_index_bytes (dir_size view.indexes);
        deleted = deleted;
        left = left;
      })

  -- One tick, `none` if it panics; the committed offset is 0.
  unfoldable pub check : RetentionConfig → View → Option (Checked Instant)
  check config view =
      after_purges config view (apply_retention c Instant before_now view.definitions)

  abbrev pub followed : Option (Checked Instant) → List (Checked Instant) → List (Checked Instant)
  followed none rest = []
  followed (some checked) rest = checked ∷ rest

  -- The ticks, up to one that panics.
  unfoldable pub run_retention_worker : RetentionConfig → List View → List (Checked Instant)
  run_retention_worker config [] = []
  run_retention_worker config (view ∷ views) =
      followed (check config view) (run_retention_worker config views)

-- One purge for each policy. The log files, ordered by their start offsets, are cleaned: `by_age` has
-- every file as often as the directory.
pub record IsDone (c : Chrono) (Instant : Type 0) (before_now : c.Duration → Option Instant)
    (config : RetentionConfig) (defs : List IndexDefinition) (entries : List DirEntry)
    (checked : Checked Instant) : Type 0 where
  pub purged : checked.commands ≡ policies c Instant before_now defs
  pub by_age : List WalFile
  pub same : Perm by_age (wal_files entries)
  pub ascending : IsAscending by_age
  pub cleaned : Cleaned config.max_wal_bytes 0 by_age checked.deleted checked.left

sum-insert_by_start :
    (f : WalFile) (gs : List WalFile) → sum (insert_by_start f gs) ≡ f.size + sum gs
unfolding insert_by_start
sum-insert_by_start f [] = refl
sum-insert_by_start f (g ∷ gs) = ground (arith, sum-insert_by_start f gs)

sum-sort_by_start : (fs : List WalFile) → sum (sort_by_start fs) ≡ sum fs
unfolding sort_by_start
sum-sort_by_start [] = refl
sum-sort_by_start (f ∷ fs) =
    sum-insert_by_start f (sort_by_start fs) ∙ ap (λ n. f.size + n) (sum-sort_by_start fs)

module _ (c : Chrono) (Instant : Type 0) (before_now : c.Duration → Option Instant) where
  after_purges-IsDone :
      (config : RetentionConfig) (defs : List IndexDefinition) (indexes : Option Nodes)
      (entries : List DirEntry) (checked : Checked Instant)
      (to_send : List (PurgeCommand Instant) × Bool)
      → sum (wal_files entries) < 2 ^ 64
      → (to_send.1 ≡ true → to_send.0 ≡ policies c Instant before_now defs)
      → after_purges c Instant before_now all_removable config
          (record { definitions = defs; indexes = indexes; log_dir = some entries })
          to_send
        ≡ some checked
      → IsDone c Instant before_now config defs entries checked
  unfolding cleanup_wals
  after_purges-IsDone config defs indexes entries checked (commands, false) small p h =
      absurd (cc h)
  after_purges-IsDone config defs indexes entries checked (commands, true) small p h =
      let files = wal_files entries in
      rw (← some-injective _ _ h) (record {
        purged = p refl;
        by_age = sort_by_start files;
        same = sort_by_start-perm files;
        ascending = sort_by_start-IsAscending files;
        cleaned =
            cleanup_files-Cleaned (sort_by_start files) 0 config.max_wal_bytes
              (rw (sum-sort_by_start files) small);
      })

  -- A tick of the retention worker that does not panic, where the log's directory can be read,
  -- every file there can be removed and the sizes do not add up to 2 ^ 64, has sent one purge for
  -- each index with a retention that can be read, in order and with its cutoff; and with the log
  -- files in the order of their start offsets, it has deleted those that end at offset 0 and of
  -- the others a first part, as many as it takes to come within the limit and no more.
  pub check-IsDone :
      (config : RetentionConfig) (defs : List IndexDefinition) (indexes : Option Nodes)
      (entries : List DirEntry) (checked : Checked Instant)
      → sum (wal_files entries) < 2 ^ 64
      → check c Instant before_now all_removable config
          (record { definitions = defs; indexes = indexes; log_dir = some entries })
        ≡ some checked
      → IsDone c Instant before_now config defs entries checked
  unfolding check
  check-IsDone config defs indexes entries checked small h =
      after_purges-IsDone config defs indexes entries checked
        (apply_retention c Instant before_now defs) small
        (apply_retention-policies c Instant before_now defs) h
