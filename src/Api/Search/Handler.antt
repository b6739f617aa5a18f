-- ===== src/Api/Search/Handler.antt =====
-- `index_search_handler` of src/api/search.rs.
use edgewit.Prelude.{
  ℕ, ◌+◌, ◌^◌, ◌<◌, ◌≡◌, refl, ap, ◌∙◌, Bool, true, false, Option, none, some, List, [], ◌∷◌, ◌++◌,
  Text, ascii, Result, ok, err, arith, lookup, Assoc, take, take_nil, drop_nil,
}
use edgewit.Prelude.Attempts.{Attempt, returns, fails, panics}
use edgewit.Indexer.Engine.{Engine}
use edgewit.Indexer.Manager.{
  IndexManager, Managed, get_reader, get_or_create_index, not_found, cached,
}
use edgewit.Registry.Store.{get}
use edgewit.Prelude.Sorting.{sort_by, insert_all}
use edgewit.Api.Searching.{Searching}
use edgewit.Api.Query.{and_then, extract_query_string}
use edgewit.Api.Search.{
  Searched, collect, limit, source_field, query_of, search_reader, execute_search, paginated,
  retrieve,
}
use edgewit.Api.Hits.{SearchQueryParams, SearchRequestBody, SearchResponse}

-- `o.or_else(|| rest)` and `o.unwrap_or(d)`
abbrev or_else : Option ℕ → Option ℕ → Option ℕ
or_else (some n) rest = some n
or_else none rest = rest

abbrev unwrap_or : ℕ → Option ℕ → ℕ
unwrap_or d none = d
unwrap_or d (some n) = n

-- The answer of the handler, or the end of the process.
pub data SearchReply (Response : Type 0) : Type 0 where
  found : Response → SearchReply Response
  bad_request : Text → SearchReply Response
  aborted : SearchReply Response

limit_wraps : (from size : ℕ) → 0 < size → from + size ≡ 2 ^ 64 → limit from size ≡ 0
unfolding limit
limit_wraps from size pos h = ground arith

module _ (lib : Engine) (s : Searching lib) where
  abbrev pub Body : Type 0
  Body = SearchRequestBody s.Aggregations

  abbrev pub from_of : SearchQueryParams → Option Body → ℕ
  from_of params body = unwrap_or 0 (or_else params.from (and_then body (λ b. b.from)))

  abbrev pub size_of : SearchQueryParams → Option Body → ℕ
  size_of params body = unwrap_or 10 (or_else params.size (and_then body (λ b. b.size)))

  abbrev pub aggs_of : Option Body → Option s.Aggregations
  aggs_of none = none
  aggs_of (some b) = b.aggs

  abbrev pub text_of : SearchQueryParams → Option Body → Text
  text_of params body = extract_query_string params.q (and_then body (λ b. b.query))

  -- `.map(|r| vec![r]).unwrap_or_default()`
  abbrev pub one_or_none : Result Text lib.Reader → List lib.Reader
  one_or_none (ok r) = r ∷ []
  one_or_none (err e) = []

  abbrev pub Response : Type 0
  Response = SearchResponse s.Score s.Aggregated

  abbrev pub reply_of : Attempt Text Response → SearchReply Response
  reply_of (returns resp) = found resp
  reply_of (fails e) = bad_request (ascii "Search error: " ++ e)
  reply_of panics = aborted

  abbrev pub replied :
      IndexManager lib
      → Searched lib s Response
      → SearchReply Response × (IndexManager lib × lib.World)
  replied manager (resp, world) = (reply_of resp, (manager, world))

  abbrev pub search_managed :
      (lib.World → lib.World)
      → SearchQueryParams
      → Option Body
      → Managed lib lib.Reader
      → SearchReply Response × (IndexManager lib × lib.World)
  search_managed meanwhile params body (reader, (manager, world)) = replied manager (
      execute_search lib s meanwhile (one_or_none reader) (text_of params body)
        (from_of params body) (size_of params body) (aggs_of body) world)

  unfoldable pub index_search_handler :
      (lib.World → lib.World)
      → Text
      → SearchQueryParams
      → Option Body
      → IndexManager lib
      → lib.World
      → SearchReply Response × (IndexManager lib × lib.World)
  index_search_handler meanwhile index params body manager world =
      search_managed meanwhile params body (get_reader lib index manager world)

  -- The answer without a hit.
  abbrev pub IsEmptyAnswer : SearchReply Response → Type 0
  IsEmptyAnswer (found r) =
      (r.hits.hits ≡ []) × (r.hits.total.value ≡ 0) × (r.hits.max_score ≡ none)
  IsEmptyAnswer _ = ⊥

  paginated_nil : (from size : ℕ) → paginated lib s from size [] ≡ []
  unfolding paginated sort_by insert_all
  paginated_nil from size = ap (take size) (drop_nil from) ∙ take_nil size

  empty_page :
      (meanwhile : lib.World → lib.World) (query_str : Text) (from size : ℕ)
      (aggs : Option s.Aggregations) (world : lib.World)
      → IsEmptyAnswer
          (reply_of (execute_search lib s meanwhile [] query_str from size aggs world).0)
  unfolding execute_search collect retrieve
  empty_page meanwhile query_str from size aggs world =
      rw (paginated_nil from size) (refl, refl, refl)

  cached_none :
      {A : Type 0} (poisoned : Bool) (cache : Assoc A) (name : Text)
      → lookup name cache ≡ none
      → cached lib poisoned cache name ≡ none
  cached_none true cache name h = refl
  cached_none false cache name h = h

  missing_reader :
      (index : Text) (manager : IndexManager lib) (world : lib.World)
      → get manager.registry index ≡ none
      → lookup index manager.indexes ≡ none
      → lookup index manager.readers ≡ none
      → (get_reader lib index manager world).0 ≡ err (not_found lib)
  unfolding get_reader get_or_create_index
  missing_reader index manager world undefined no_index no_reader =
      rw
        (
          cached_none manager.readers_poisoned manager.readers index no_reader,
          cached_none manager.indexes_poisoned manager.indexes index no_index,
          undefined,
        )
        refl

  -- A search in an index that has no definition and is in no cache is answered with no hits and a total
  -- of 0, whatever the query is.
  pub index_search_handler_unknown :
      (meanwhile : lib.World → lib.World) (index : Text) (params : SearchQueryParams)
      (body : Option Body) (manager : IndexManager lib) (world : lib.World)
      → get manager.registry index ≡ none
      → lookup index manager.indexes ≡ none
      → lookup index manager.readers ≡ none
      → IsEmptyAnswer (index_search_handler meanwhile index params body manager world).0
  unfolding index_search_handler
  index_search_handler_unknown meanwhile index params body manager world undefined no_index
        no_reader =
      rw (missing_reader index manager world undefined no_index no_reader) (
        empty_page meanwhile (text_of params body) (from_of params body) (size_of params body)
          (aggs_of body) (get_reader lib index manager world).1.1)

  -- A search without aggregations for a page of some size whose end is 2 ^ 64, in an index that
  -- can be read and searched, aborts the process, if the library panics when it is asked for no
  -- hits.
  pub index_search_handler_aborts :
      (meanwhile : lib.World → lib.World) (index : Text) (params : SearchQueryParams)
      (body : Option Body) (manager manager' : IndexManager lib) (world world' : lib.World)
      (r : lib.Reader) (f : s.Field) (q : s.Query)
      → get_reader lib index manager world ≡ (ok r, (manager', world'))
      → source_field lib s (s.searcher r (s.reload r world').1) ≡ some f
      → query_of lib s (s.searcher r (s.reload r world').1) f (text_of params body) ≡ returns q
      → aggs_of body ≡ none
      → s.search (s.searcher r (s.reload r world').1) q 0 ≡ panics
      → 0 < size_of params body
      → from_of params body + size_of params body ≡ 2 ^ 64
      → (index_search_handler meanwhile index params body manager world).0 ≡ aborted
  unfolding index_search_handler execute_search collect search_reader
  index_search_handler_aborts meanwhile index params body manager manager' world world' r f q opened
        field query no_aggs at_zero pos wraps =
      rw
        (
          opened,
          no_aggs,
          limit_wraps (from_of params body) (size_of params body) pos wraps,
          field,
          query,
          at_zero,
        )
        refl
