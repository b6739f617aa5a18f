-- ===== src/Api/Search/Ranking.antt =====
-- `execute_search` of src/api/search.rs asks each reader for its first hits only; here, that the page
-- is cut from the ranking of all matches.
use edgewit.Prelude.{
  ℕ, suc, ◌%◌, ◌^◌, ◌<◌, ◌≡◌, Bool, Option, none, some, List, [], ◌∷◌, map, length, take, drop,
  Text,
}
use edgewit.Prelude.Attempts.{Attempt, returns, ◌>>=◌}
use edgewit.Prelude.Sorting.{IsSorted, sort_by}
use edgewit.Prelude.Sorting.Top.{concat}
use edgewit.Indexer.Engine.{Engine}
use edgewit.Api.Searching.{Searching}
use edgewit.Api.Search.{Globals, Found, tag, source_field, query_of, lower_score, retrieve, respond}
use edgewit.Api.Hits.{SearchResponse}
use edgewit.Api.Search.Page.{IsScoreOrder}

module _ (lib : Engine) (s : Searching lib) where
  abbrev pub lower_pair : s.Score × s.Address → s.Score × s.Address → Bool
  lower_pair (score, _) (other, _) = s.greater_score other score

  -- What the library promises, while no reader takes up a commit: `view` is what a reader shows,
  -- `ranking` lists all matches of a query there, the best first, and `Count` with `TopDocs` gives
  -- their number and the first of them.
  pub record Documented (view : lib.Reader → s.Searcher)
      (ranking : s.Searcher → s.Query → List (s.Score × s.Address)) : Type 0 where
    pub order : IsScoreOrder lib s
    pub ranked : (v : s.Searcher) (q : s.Query) → IsSorted lower_pair (ranking v q)
    pub top :
        (v : s.Searcher) (q : s.Query) (lim : ℕ)
        → 0 < lim
        → s.search v q lim ≡ returns (length (ranking v q), take lim (ranking v q))
    pub steady : (r : lib.Reader) (w : lib.World) → s.searcher r w ≡ view r

  module _ (view : lib.Reader → s.Searcher)
      (ranking : s.Searcher → s.Query → List (s.Score × s.Address)) where
    -- The matches in one reader, none if it has no field to search.
    abbrev pub field_matches :
        s.Searcher → Text → Option s.Field → Attempt Text (List (s.Score × s.Address))
    field_matches v query_str none = returns []
    field_matches v query_str (some field) = do
      query ← query_of lib s v field query_str
      returns (ranking v query)

    -- The matches of each reader, with its number.
    unfoldable pub all_matches :
        Text → List lib.Reader → ℕ → Attempt Text (List (List (Found lib s)))
    all_matches query_str [] i = returns []
    all_matches query_str (r ∷ rs) i = do
      ms ← field_matches (view r) query_str (source_field lib s (view r))
      rest ← all_matches query_str rs (suc i)
      returns (map (tag lib s i) ms ∷ rest)

    -- The answer that is expected: the slice of the whole ranking.
    unfoldable pub expected :
        List lib.Reader
        → Text
        → ℕ
        → ℕ
        → lib.World
        → Attempt Text (SearchResponse s.Score s.Aggregated)
    expected readers query_str from size world = do
      mss ← all_matches query_str readers 0
      let page = take size (drop from (sort_by (lower_score lib s) (concat mss)))
      hits ← retrieve lib s readers page world
      let found : Globals lib s = record {
        total_docs = length (concat mss) % 2 ^ 64;
        hits = concat mss;
        aggs = none;
      }
      returns (respond lib s readers none found page hits)
