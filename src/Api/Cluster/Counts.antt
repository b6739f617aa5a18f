-- ===== src/Api/Cluster/Counts.antt =====
-- The counts that the two lists of src/api/cluster.rs give of the same indexes.
use edgewit.Prelude.{ℕ, ◌^◌, ◌<◌, ◌≡◌, refl, ◌∙◌, Option, none, some, List, [], ◌∷◌, Text, arith}
use edgewit.Prelude.Numbers.{parse_u64}
use edgewit.Prelude.Decimal.{parse_u64-decimal}
use edgewit.Schema.Definition.{IndexDefinition}
use edgewit.Registry.Store.{list}
use edgewit.Retention.Size.{Nodes}
use edgewit.Wal.Frame.{add64}
use edgewit.Indexer.Engine.{Engine}
use edgewit.Api.Searching.{Searching}
use edgewit.Api.Cluster.{
  CatIndex, State, Sums, look_at, docs_in, size_at, sum_up, stats_handler, cat_rows,
  cat_indexes_handler, cat_registered, placeholder, add_index,
}

-- The rows name the definitions in order, and the counts that they show, read as numbers, add up to
-- `docs`.
abbrev pub AddUp : List IndexDefinition → List CatIndex → ℕ → Type 0
AddUp [] [] docs = docs ≡ 0
AddUp (d ∷ ds) (r ∷ rs) docs =
    (n : ℕ) × (rest : ℕ) × (r.index ≡ d.name)
    × (parse_u64 r.docs_count ≡ some n)
    × (docs ≡ add64 n rest)
    × AddUp ds rs rest
AddUp _ _ docs = ⊥

-- The same where there is no definition: one row that stands in.
abbrev pub Listed : List IndexDefinition → List CatIndex → ℕ → Type 0
Listed [] rows docs = (rows ≡ placeholder ∷ []) × (docs ≡ 0)
Listed (d ∷ ds) rows docs = AddUp (d ∷ ds) rows docs

add64_zero : (n : ℕ) → n < 2 ^ 64 → add64 0 n ≡ n
add64_zero n h = omega arith

module _ (lib : Engine) (s : Searching lib) (disk : Text → lib.World → Option Nodes)
    (small : (v : s.Searcher) → s.num_docs v < 2 ^ 64) where
  docs_in-lt : (seen : Option s.Searcher) → docs_in lib s seen < 2 ^ 64
  docs_in-lt none = omega arith
  docs_in-lt (some v) = small v

  -- The two loops look at the same readers, in the same order.
  sum_up-cat_rows :
      (defs : List IndexDefinition) (t : Sums) (state : State lib s)
      → t.num_docs < 2 ^ 64
      → (docs : ℕ) × AddUp defs (cat_rows lib s disk defs state).0 docs
        × ((sum_up lib s disk defs t state).0.num_docs ≡ add64 t.num_docs docs)
        × ((sum_up lib s disk defs t state).1 ≡ (cat_rows lib s disk defs state).1)
        × (docs < 2 ^ 64)
  unfolding sum_up cat_rows
  sum_up-cat_rows [] t state hd = (0, refl, omega arith, refl, omega arith)
  sum_up-cat_rows (def ∷ defs) t state hd =
      let seen = (look_at lib s def.name state).0 in
      let state' = (look_at lib s def.name state).1 in
      let n = docs_in lib s seen in
      let t' = add_index lib s (size_at lib s disk def.name state) seen t in
      let (docs, rows, ed, same, _) = sum_up-cat_rows defs t' state' (omega arith) in
      (
        add64 n docs,
        (n, docs, refl, parse_u64-decimal n (docs_in-lt seen), refl, rows),
        ed ∙ omega arith,
        same,
        omega arith,
      )

  -- From the same state, where no reader has 2 ^ 64 documents, the rows of the list of indexes
  -- name the definitions of the registry in order, their document counts, read as numbers, add up
  -- modulo 2 ^ 64 to what the statistics say, and both leave the same state; without a definition
  -- there is one row that stands in, and the statistics count 0 documents.
  pub stats_handler-cat_indexes_handler :
      (state : State lib s)
      → Listed
          (list state.0.registry)
          (cat_indexes_handler lib s disk state).0
          (stats_handler lib s disk state).0._all.total.docs.count
        × ((stats_handler lib s disk state).1 ≡ (cat_indexes_handler lib s disk state).1)
  unfolding stats_handler cat_indexes_handler
  stats_handler-cat_indexes_handler (manager, world) = of_list (list manager.registry)
    where
      of_list :
          (defs : List IndexDefinition)
          → Listed defs
              (cat_registered lib s disk defs (manager, world)).0
              (sum_up lib s disk defs
                (record { num_docs = 0; num_segments = 0; total_size = 0 })
                (manager, world)).0.num_docs
            × ((sum_up lib s disk defs
                  (record { num_docs = 0; num_segments = 0; total_size = 0 })
                  (manager, world)).1
                ≡ (cat_registered lib s disk defs (manager, world)).1)
      of_list [] = unfold sum_up in ((refl, refl), refl)
      of_list (d ∷ ds) =
          let (docs, rows, ed, same, hd) =
            sum_up-cat_rows (d ∷ ds) (record { num_docs = 0; num_segments = 0; total_size = 0 })
              (manager, world) (omega arith) in
          let count = ed ∙ add64_zero docs hd in (rw count rows, same)
