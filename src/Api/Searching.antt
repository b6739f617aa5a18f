-- ===== src/Api/Searching.antt =====
-- The search library and the other outside code that src/api/search.rs and src/api/cluster.rs call.
use edgewit.Prelude.{ℕ, Bool, Option, List, Text, Result}
use edgewit.Prelude.Attempts.{Attempt}
use edgewit.Json.{Value}
use edgewit.Indexer.Engine.{Engine}

pub record Searching (lib : Engine) : Type 1 where
  pub Searcher : Type 0
  pub Field : Type 0
  pub Query : Type 0
  pub Score : Type 0
  pub Address : Type 0
  pub Document : Type 0
  -- `Aggregations`, their intermediate results and their results
  pub Aggregations : Type 0
  pub Intermediate : Type 0
  pub Aggregated : Type 0
  pub reload : lib.Reader → lib.World → Result Text (Unit {0}) × lib.World
  -- `reader.searcher()`: the snapshot that the reader holds
  pub searcher : lib.Reader → lib.World → Searcher
  pub num_docs : Searcher → ℕ
  -- `segment_readers().len()`
  pub num_segments : Searcher → ℕ
  -- `schema.get_field`
  pub get_field : Searcher → Text → Option Field
  pub all_query : Query
  -- `QueryParser::for_index` with one default field, and its `parse_query`
  pub parse_query : Searcher → Field → Text → Result Text Query
  -- `search` with `Count` and `TopDocs::with_limit`, which panics at no places
  pub search : Searcher → Query → ℕ → Attempt Text (ℕ × List (Score × Address))
  -- the same with a `DistributedAggregationCollector`
  pub search_with :
      Searcher → Query → ℕ → Aggregations → Attempt Text (ℕ × List (Score × Address) × Intermediate)
  -- `partial_cmp(..) == Some(Greater)`
  pub greater_score : Score → Score → Bool
  -- `merge_fruits`, whose error is dropped
  pub merge_fruits : Intermediate → Intermediate → Intermediate
  -- `into_final_result(..).ok()`
  pub into_final_result : Intermediate → Aggregations → Option Aggregated
  pub doc : Searcher → Address → Result Text Document
  -- `to_json` and `serde_json::from_str(..).ok()`
  pub to_json : Searcher → Document → Text
  pub from_str : Text → Option Value
