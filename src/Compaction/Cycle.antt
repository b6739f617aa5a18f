-- ===== src/Compaction/Cycle.antt =====
-- Which indexes a cycle of src/compaction.rs compacts.
use edgewit.Prelude.{
  ◌&&◌, ◌≡◌, refl, List, [], ◌∷◌, ◌++◌, map, Text, Result, ok, err, if◌then◌else◌, Bool-cases, inl,
  inr,
}
use edgewit.Compaction.{
  Library, CompactionWorker, Entry, entries, io, compact_index, index_path, visit, visit_all,
  run_cycle,
}

-- The entries that are directories with a `meta.json`, in order.
abbrev pub index_dirs : List Entry → List Entry
index_dirs [] = []
index_dirs (e ∷ es) = if e.is_dir && e.has_meta then e ∷ index_dirs es else index_dirs es

module _ (lib : Library) (self : CompactionWorker) where
  -- Each of them is compacted, whatever became of those before.
  abbrev pub compact_all : List Entry → lib.World → lib.World
  compact_all [] world = world
  compact_all (e ∷ es) world =
      compact_all es (compact_index lib self (index_path lib self e) world).1

  visit-compact_all :
      (e : Entry) (es : List Entry) (world : lib.World)
      → compact_all (index_dirs (e ∷ es)) world
        ≡ compact_all (index_dirs es) (visit lib self e world)
  visit-compact_all e es world = elim (Bool-cases (e.is_dir && e.has_meta)) [
    | inl index ↦ rw index refl
    | inr other ↦ rw other refl
  ]

  visit_all_ok :
      (es : List Entry) (world : lib.World)
      → visit_all lib self (map ok es) world ≡ (ok tt, compact_all (index_dirs es) world)
  unfolding visit_all
  visit_all_ok [] world = refl
  visit_all_ok (e ∷ es) world =
      rw (visit-compact_all e es world) (visit_all_ok es (visit lib self e world))

  visit_all_err :
      (es : List Entry) (x : Text) (rest : List (Result Text Entry)) (world : lib.World)
      → visit_all lib self (map ok es ++ err x ∷ rest) world
        ≡ (err (io x), compact_all (index_dirs es) world)
  unfolding visit_all
  visit_all_err [] x rest world = refl
  visit_all_err (e ∷ es) x rest world =
      rw (visit-compact_all e es world) (visit_all_err es x rest (visit lib self e world))

  -- A cycle over a directory whose entries can be read compacts every directory with a
  -- `meta.json`, in order, whatever becomes of each; if an entry cannot be read, those before it
  -- are compacted all the same and the cycle ends with that error.
  pub run_cycle_outcome :
      (es : List Entry) (x : Text) (rest : List (Result Text Entry)) (world : lib.World)
      → (run_cycle lib self (entries (map ok es)) world
          ≡ (ok tt, compact_all (index_dirs es) world))
        × (run_cycle lib self (entries (map ok es ++ err x ∷ rest)) world
            ≡ (err (io x), compact_all (index_dirs es) world))
  unfolding run_cycle
  run_cycle_outcome es x rest world = (visit_all_ok es world, visit_all_err es x rest world)
