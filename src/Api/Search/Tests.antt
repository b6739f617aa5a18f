-- ===== src/Api/Search/Tests.antt =====
-- Searches in a small index, and what the theorems say of them.
use edgewit.Prelude.{
  ℕ, zero, suc, ◌^◌, ◌<◌, ◌≡◌, refl, false, Option, none, some, List, [], ◌∷◌, ◌++◌, Text, ascii,
  ltb, take, ok, arith,
}
use edgewit.Prelude.Attempts.{Attempt, returns, panics}
use edgewit.Prelude.Sorting.{sort_by, insert_all, insert_by}
use edgewit.Prelude.Trim
use edgewit.Prelude.{text_eq, lookup, ◌-◌}
use edgewit.Json.{get, find_entry, Value, string, object, array, item, no_items, entry, no_entries}
use edgewit.Registry.Store
use edgewit.Indexer.Manager.{get_reader, get_or_create_index}
use edgewit.Indexer.Tests.{Asked, engine, manager}
use edgewit.Api.Query.{extract_query_string}
use edgewit.Api.Searching.{Searching}
use edgewit.Api.Search.{
  execute_search, collect, search_reader, source_field, query_of, limit, paginated, retrieve,
  reader_at,
}
use edgewit.Api.Hits.{SearchQueryParams, SearchResponse, Hit, is_match_all, source_and_index}
use edgewit.Api.Search.Page.{IsScoreOrder, IsPage, execute_search-IsPage}
use edgewit.Api.Search.Ranking.{Documented, expected}
use edgewit.Api.Search.Slices.{execute_search-expected}
use edgewit.Api.Search.Splitting.{Response, execute_search_in_two}
use edgewit.Api.Search.Handler.{aborted, index_search_handler, index_search_handler_aborts}

-- Scores with the documents' numbers.
abbrev pub four : List (ℕ × ℕ)
four = (9, 1) ∷ (5, 2) ∷ (5, 3) ∷ (2, 4) ∷ []

abbrev first : ℕ → Attempt Text (ℕ × List (ℕ × ℕ))
first zero = panics
first (suc n) = returns (4, take (suc n) four)

abbrev stored : Value
stored = object (
    entry (ascii "_source") (array (item (string (ascii "hi")) no_items))
      (entry (ascii "_index") (array (item (string (ascii "logs")) no_items)) no_entries))

abbrev pub searching : Searching engine
searching = record {
  Searcher = ℕ;
  Field = Text;
  Query = Text;
  Score = ℕ;
  Address = ℕ;
  Document = ℕ;
  Aggregations = Unit {0};
  Intermediate = Unit {0};
  Aggregated = Unit {0};
  reload = λ r w. (ok tt, w);
  searcher = λ r w. r;
  num_docs = λ v. 4;
  num_segments = λ v. 2;
  get_field = λ v name. some name;
  all_query = ascii "*";
  parse_query = λ v f q. ok q;
  search = λ v q lim. first lim;
  search_with = λ v q lim aggs. returns (4, take lim four, tt);
  greater_score = λ a b. ltb b a;
  merge_fruits = λ a b. a;
  into_final_result = λ res req. some tt;
  doc = λ v addr. ok addr;
  to_json = λ v d. [];
  from_str = λ t. some stored;
}

score_order : IsScoreOrder engine searching
score_order = record { asymmetric = λ x y h. ground arith; transitive = λ x y z h k. ground arith }

first_top : (lim : ℕ) → 0 < lim → first lim ≡ returns (4, take lim four)
first_top zero h = absurd (omega arith)
first_top (suc n) h = refl

documented : Documented engine searching (λ r. r) (λ v q. four)
documented = record {
  order = score_order;
  ranked = λ v q. ((refl, (refl, (refl, tt))), ((refl, (refl, tt)), ((refl, tt), (tt, tt))));
  top = λ v q lim h. first_top lim h;
  steady = λ r w. refl;
}

abbrev hit : ℕ → Hit ℕ
hit score = record {
  _index = ascii "logs";
  _id = ascii "unknown";
  _score = some score;
  _source = string (ascii "hi");
}

-- An answer with these hits of four.
abbrev answered : Option ℕ → List (Hit ℕ) → SearchResponse ℕ (Unit {0})
answered best hits = record {
  timed_out = false;
  _shards = record { total = 1; successful = 1; skipped = 0; failed = 0 };
  hits = record {
    total = record { value = 4; relation = ascii "eq" };
    max_score = best;
    hits = hits;
  };
  aggregations = none;
}

abbrev second_and_third : SearchResponse ℕ (Unit {0})
second_and_third = answered (some 5) (hit 5 ∷ hit 5 ∷ [])

searched :
    (execute_search engine searching (λ w. w) (7 ∷ []) (ascii "*") 1 2 none []).0
    ≡ returns second_and_third
unfolding execute_search collect search_reader source_field query_of is_match_all Trim.trim text_eq
    limit paginated sort_by insert_all insert_by retrieve reader_at source_and_index get find_entry
searched = refl

execute_search-IsPage_example : IsPage engine searching 2 second_and_third
execute_search-IsPage_example =
    execute_search-IsPage engine searching (λ w. w) (7 ∷ []) (ascii "*") 1 2 none []
      second_and_third score_order searched

execute_search-expected_example :
    (execute_search engine searching (λ w. w) (7 ∷ 8 ∷ []) (ascii "x") 1 2 none []).0
    ≡ expected engine searching (λ r. r) (λ v q. four) (7 ∷ 8 ∷ []) (ascii "x") 1 2 []
execute_search-expected_example =
    execute_search-expected engine searching (λ r. r) (λ v q. four) documented (λ w. w) (7 ∷ 8 ∷ [])
      (ascii "x") 1 2 [] (omega arith)

execute_search_in_two_example :
    (r1 : Response engine searching (λ r. r) (λ v q. four) documented) × (r2 : Response engine
      searching
      (λ r. r)
      (λ v q. four)
      documented)
    × ((execute_search engine searching (λ w. w) (7 ∷ []) (ascii "*") 1 1 none []).0 ≡ returns r1)
    × ((execute_search engine searching (λ w. w) (7 ∷ []) (ascii "*") 2 1 none []).0 ≡ returns r2)
    × (second_and_third.hits.hits ≡ r1.hits.hits ++ r2.hits.hits)
    × (second_and_third.hits.total ≡ r1.hits.total)
    × (second_and_third.hits.total ≡ r2.hits.total)
execute_search_in_two_example =
    execute_search_in_two engine searching (λ r. r) (λ v q. four) documented (λ w. w) (7 ∷ [])
      (ascii "*") 1 1 1 [] second_and_third (omega arith) searched

abbrev params : ℕ → ℕ → SearchQueryParams
params from size = record { q = some (ascii "*"); from = some from; size = some size }

abbrev opened_world : List Asked
opened_world = (get_reader engine (ascii "logs") manager []).1.1

logs_opened :
    get_reader engine (ascii "logs") manager []
    ≡ (ok 1, ((get_reader engine (ascii "logs") manager []).1.0, opened_world))
unfolding get_reader get_or_create_index Store.get lookup text_eq
logs_opened = refl

field_found : source_field engine searching 1 ≡ some (ascii "_dynamic")
unfolding source_field
field_found = refl

query_found : query_of engine searching 1 (ascii "_dynamic") (ascii "*") ≡ returns (ascii "*")
unfolding query_of is_match_all Trim.trim text_eq
query_found = refl

index_search_handler_aborts_example :
    (index_search_handler engine searching
      (λ w. w)
      (ascii "logs")
      (params (2 ^ 64 - 1) 1)
      none
      manager
      []).0
    ≡ aborted
unfolding extract_query_string
index_search_handler_aborts_example =
    index_search_handler_aborts engine searching (λ w. w) (ascii "logs") (params (2 ^ 64 - 1) 1)
      none manager (get_reader engine (ascii "logs") manager []).1.0 [] opened_world 1
      (ascii "_dynamic") (ascii "*") logs_opened field_found query_found refl refl (omega arith)
      (omega arith)
