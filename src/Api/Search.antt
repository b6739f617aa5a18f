-- ===== src/Api/Search.antt =====
-- src/api/search.rs: `execute_search`.
pub mod Page
pub mod Ranking
pub mod Collecting
pub mod Slices
pub mod Splitting
pub mod Handler
pub mod Tests
use edgewit.Prelude.{
  ℕ, zero, suc, ◌+◌, ◌%◌, ◌^◌, Bool, true, false, ◌||◌, Option, none, some, List, [], ◌∷◌, ◌++◌,
  map, length, take, drop, Text, ascii, text_eq, ◌==◌, if◌then◌else◌, Result, ok, err,
}
use mathlib.Core.Option
use edgewit.Prelude.Attempts.{Attempt, returns, fails, panics, ◌>>=◌}
use edgewit.Prelude.Sorting.{sort_by}
use edgewit.Prelude.Trim.{trim}
use edgewit.Json.{Value, null, get, as_array, as_str}
use edgewit.Indexer.Engine.{Engine}
use edgewit.Wal.Frame.{add64}
use edgewit.Api.Searching.{Searching}
use edgewit.Api.Hits.{
  Hit, HitsInfo, SearchQueryParams, SearchRequestBody, SearchResponse, ShardsInfo, TotalHits,
  array_or_itself, first_or_null, first_text, is_match_all, name_or_unknown, source_and_index,
  source_value,
}
use edgewit.Api.Query.{and_then}

-- `from + size` is a `usize`, which wraps in the release profile.
unfoldable pub limit : ℕ → ℕ → ℕ
limit from size = if size == 0 then 1 else add64 from size

module _ (lib : Engine) (s : Searching lib) where
  -- A hit with the number of its reader.
  abbrev pub Found : Type 0
  Found = s.Score × ℕ × s.Address

  pub record Globals : Type 0 where
    pub total_docs : ℕ
    pub hits : List Found
    pub aggs : Option s.Intermediate

  abbrev pub no_globals : Globals
  no_globals = record { total_docs = 0; hits = []; aggs = none }

  abbrev pub tag : ℕ → s.Score × s.Address → Found
  tag reader_idx (score, addr) = (score, reader_idx, addr)

  -- The dynamic field if the schema has it, else the source.
  abbrev pub or_source : Option s.Field → Option s.Field → Option s.Field
  or_source (some f) source = some f
  or_source none source = source

  unfoldable pub source_field : s.Searcher → Option s.Field
  source_field searcher =
      or_source (s.get_field searcher (ascii "_dynamic")) (s.get_field searcher (ascii "_source"))

  abbrev pub parsed : Result Text s.Query → Attempt Text s.Query
  parsed (ok query) = returns query
  parsed (err e) = fails (ascii "Invalid query: " ++ e)

  unfoldable pub query_of : s.Searcher → s.Field → Text → Attempt Text s.Query
  query_of searcher field query_str =
      if is_match_all query_str
      then returns s.all_query
      else parsed (s.parse_query searcher field query_str)

  abbrev pub search_error : {A : Type 0} → Attempt Text A → Attempt Text A
  search_error (returns a) = returns a
  search_error (fails e) = fails (ascii "Search error: " ++ e)
  search_error panics = panics

  abbrev pub merged : Option s.Intermediate → s.Intermediate → s.Intermediate
  merged none res = res
  merged (some existing) res = s.merge_fruits existing res

  abbrev pub add_found : ℕ → Globals → ℕ × List (s.Score × s.Address) → Globals
  add_found reader_idx g (total, top) = record g {
    total_docs = add64 g.total_docs total;
    hits = g.hits ++ map (tag reader_idx) top;
  }

  abbrev pub add_aggregated :
      ℕ → Globals → ℕ × List (s.Score × s.Address) × s.Intermediate → Globals
  add_aggregated reader_idx g (total, top, res) = record (add_found reader_idx g (total, top)) {
    aggs = some (merged g.aggs res);
  }

  abbrev pub run_query :
      s.Searcher → s.Query → ℕ → Option s.Aggregations → ℕ → Globals → Attempt Text Globals
  run_query searcher query lim none reader_idx g = do
    found ← search_error (s.search searcher query lim)
    returns (add_found reader_idx g found)
  run_query searcher query lim (some req) reader_idx g = do
    found ← search_error (s.search_with searcher query lim req)
    returns (add_aggregated reader_idx g found)

  -- The body of the loop over the readers, once the reader is reloaded; without a field to search it
  -- goes on.
  abbrev pub with_field :
      s.Searcher
      → Text
      → ℕ
      → Option s.Aggregations
      → ℕ
      → Globals
      → Option s.Field
      → Attempt Text Globals
  with_field searcher query_str lim aggs reader_idx g none = returns g
  with_field searcher query_str lim aggs reader_idx g (some field) = do
    query ← query_of searcher field query_str
    run_query searcher query lim aggs reader_idx g

  unfoldable pub search_reader :
      s.Searcher → Text → ℕ → Option s.Aggregations → ℕ → Globals → Attempt Text Globals
  search_reader searcher query_str lim aggs reader_idx g =
      with_field searcher query_str lim aggs reader_idx g (source_field searcher)

  abbrev pub Searched : Type 0 → Type 0
  Searched A = Attempt Text A × lib.World

  -- What follows a step that has left the world as it is.
  abbrev pub go_on :
      {A B : Type 0} → Attempt Text A → (A → lib.World → Searched B) → lib.World → Searched B
  go_on (returns a) f world = f a world
  go_on (fails e) f world = (fails e, world)
  go_on panics f world = (panics, world)

  -- An error of `reload` is only logged.
  unfoldable pub collect :
      Text
      → ℕ
      → Option s.Aggregations
      → List lib.Reader
      → ℕ
      → Globals
      → lib.World
      → Searched Globals
  collect query_str lim aggs [] reader_idx g world = (returns g, world)
  collect query_str lim aggs (reader ∷ readers) reader_idx g world =
      let reloaded = (s.reload reader world).1 in
      go_on (search_reader (s.searcher reader reloaded) query_str lim aggs reader_idx g)
        (collect query_str lim aggs readers (suc reader_idx)) reloaded

  -- `b.partial_cmp(a)` is `Greater`, so that the greatest score comes first.
  abbrev pub lower_score : Found → Found → Bool
  lower_score (score, _, _) (other, _, _) = s.greater_score other score

  unfoldable pub paginated : ℕ → ℕ → List Found → List Found
  paginated from size hits = take size (drop from (sort_by lower_score hits))

  -- `readers[reader_idx]`, which panics out of bounds.
  unfoldable pub reader_at : List lib.Reader → ℕ → Option lib.Reader
  reader_at [] i = none
  reader_at (r ∷ rs) zero = some r
  reader_at (r ∷ rs) (suc i) = reader_at rs i

  abbrev pub hit_of : s.Score → Value × Text → Hit s.Score
  hit_of score (source, index_name) = record {
    _index = index_name;
    _id = ascii "unknown";
    _score = some score;
    _source = source;
  }

  abbrev pub retrieved : s.Searcher → s.Score → Result Text s.Document → Attempt Text (Hit s.Score)
  retrieved searcher score (err e) = fails (ascii "Failed to retrieve doc: " ++ e)
  retrieved searcher score (ok document) =
      returns (hit_of score (source_and_index (s.from_str (s.to_json searcher document))))

  abbrev pub retrieve_from :
      Option lib.Reader → s.Score → s.Address → lib.World → Attempt Text (Hit s.Score)
  retrieve_from none score addr world = panics
  retrieve_from (some reader) score addr world =
      retrieved (s.searcher reader world) score (s.doc (s.searcher reader world) addr)

  -- The loop over the page.
  unfoldable pub retrieve :
      List lib.Reader → List Found → lib.World → Attempt Text (List (Hit s.Score))
  retrieve readers [] world = returns []
  retrieve readers ((score, reader_idx, addr) ∷ page) world = do
    hit ← retrieve_from (reader_at readers reader_idx) score addr world
    hits ← retrieve readers page world
    returns (hit ∷ hits)

  abbrev pub max_score_of : List Found → Option s.Score
  max_score_of [] = none
  max_score_of ((score, reader_idx, addr) ∷ page) = some score

  abbrev pub final_result : Option s.Intermediate → Option s.Aggregations → Option s.Aggregated
  final_result (some res) (some req) = s.into_final_result res req
  final_result (some res) none = none
  final_result none aggs = none

  abbrev pub respond :
      List lib.Reader
      → Option s.Aggregations
      → Globals
      → List Found
      → List (Hit s.Score)
      → SearchResponse s.Score s.Aggregated
  respond readers aggs g page hits = record {
    timed_out = false;
    _shards = record {
      total = length readers % 2 ^ 32;
      successful = length readers % 2 ^ 32;
      skipped = 0;
      failed = 0;
    };
    hits = record {
      total = record { value = g.total_docs; relation = ascii "eq" };
      max_score = max_score_of page;
      hits = hits;
    };
    aggregations = final_result g.aggs aggs;
  }

  abbrev pub answer_page :
      List lib.Reader
      → Option s.Aggregations
      → Globals
      → List Found
      → lib.World
      → Searched (SearchResponse s.Score s.Aggregated)
  answer_page readers aggs g page world =
      go_on (retrieve readers page world)
        (λ hits w. (returns (respond readers aggs g page hits), w)) world

  -- `meanwhile` is what the other tasks do between the search and the retrieval of the documents,
  -- which asks the readers for their searchers again.
  unfoldable pub execute_search :
      (lib.World → lib.World)
      → List lib.Reader
      → Text
      → ℕ
      → ℕ
      → Option s.Aggregations
      → lib.World
      → Searched (SearchResponse s.Score s.Aggregated)
  execute_search meanwhile readers query_str from size aggs world =
      let (found, searched) = collect query_str (limit from size) aggs readers 0 no_globals world in
      go_on found (λ g w. answer_page readers aggs g (paginated from size g.hits) (meanwhile w))
        searched
