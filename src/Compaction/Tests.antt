-- ===== src/Compaction/Tests.antt =====
-- Cycles over a small search library, whose world is the log of its merges.
use edgewit.Prelude.{ℕ, ◌≡◌, refl, true, false, List, [], ◌∷◌, ◌++◌, map, ascii, ok, err}
use edgewit.Compaction.{
  Library, CompactionWorker, Entry, entries, io, other_error, tantivy, compact_index, run_cycle,
}
use edgewit.Compaction.Cycle.{index_dirs, compact_all, run_cycle_outcome}

-- Every index has three segments, and `locked` tells why its writer is refused.
abbrev library : Library
library = record {
  World = List (List ℕ);
  Index = Unit {0};
  Reader = Unit {0};
  Segment = ℕ;
  Writer = Unit {0};
  open_in_dir = λ path w. (ok tt, w);
  reader = λ index w. (ok tt, w);
  segments = λ reader w. 1 ∷ 2 ∷ 3 ∷ [];
  writer = λ index w. (ok tt, w);
  merge = λ writer ids w. (ok tt, ids ∷ w);
  commit = λ writer w. (ok tt, w);
  wait_merging_threads = λ writer w. (ok tt, w);
  drop_writer = λ writer w. w;
}

-- The same library on a full disk.
abbrev full : Library
full = record library { writer = λ index w. (err (other_error (ascii "disk full")), w) }

abbrev worker : CompactionWorker
worker = record { data_dir = ascii "data" ∷ []; interval = 300; min_segments = 2 }

abbrev found : List Entry
found =
    record { name = ascii "logs"; is_dir = true; has_meta = true }
    ∷ record { name = ascii "logs.index.yaml"; is_dir = false; has_meta = false }
    ∷ []

run_cycle_outcome_example :
    (run_cycle library worker (entries (map ok found)) []
      ≡ (ok tt, compact_all library worker (index_dirs found) []))
    × (run_cycle library worker (entries (map ok found ++ err (ascii "gone") ∷ [])) []
        ≡ (err (io (ascii "gone")), compact_all library worker (index_dirs found) []))
run_cycle_outcome_example = run_cycle_outcome library worker found (ascii "gone") [] []

merges : compact_all library worker (index_dirs found) [] ≡ (1 ∷ 2 ∷ 3 ∷ []) ∷ []
unfolding compact_index
merges = refl

fails : compact_index full worker [] [] ≡ (err (tantivy (other_error (ascii "disk full"))), [])
unfolding compact_index
fails = refl
