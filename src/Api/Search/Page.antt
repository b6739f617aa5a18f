-- ===== src/Api/Search/Page.antt =====
-- What every page that `execute_search` of src/api/search.rs answers with looks like.
use edgewit.Prelude.{
  ℕ, ◌≤◌, ◌≡◌, refl, sym, ap, ◌∙◌, Bool, true, Option, none, some, List, [], ◌∷◌, map, length, drop,
  length-map, length-take-le, Text, Result, ok, err,
}
use edgewit.Prelude.Attempts.{Attempt, returns, fails, panics, >>=-eq-returns, returns-injective}
use edgewit.Prelude.Sorting.{
  IsSorted, IsOrder, sort_by, sort_by-IsSorted, take-IsSorted, drop-IsSorted, map-IsSorted,
}
use edgewit.Indexer.Engine.{Engine}
use edgewit.Api.Searching.{Searching}
use edgewit.Api.Search.{
  Globals, Found, Searched, collect, no_globals, limit, lower_score, paginated, reader_at, retrieve,
  retrieved, retrieve_from, respond, go_on, max_score_of, execute_search,
}
use edgewit.Api.Hits.{Hit, SearchResponse}

module _ (lib : Engine) (s : Searching lib) where
  -- The scores are in a total order, as those of the library are that are not NaN.
  abbrev pub IsScoreOrder : Type 0
  IsScoreOrder = IsOrder (λ (a b : s.Score). s.greater_score b a)

  -- A hit without a score would stand before every other.
  abbrev pub lower_option : Option s.Score → Option s.Score → Bool
  lower_option (some a) (some b) = s.greater_score b a
  lower_option _ _ = true

  abbrev pub scores : List (Hit s.Score) → List (Option s.Score)
  scores = map (λ (h : Hit s.Score). h._score)

  abbrev pub first_score : List (Hit s.Score) → Option s.Score
  first_score [] = none
  first_score (h ∷ hits) = h._score

  -- At most `size` hits, the best first, with its score as the greatest.
  pub record IsPage (size : ℕ) (r : SearchResponse s.Score s.Aggregated) : Type 0 where
    pub at_most : length r.hits.hits ≤ size
    pub descending : IsSorted lower_option (scores r.hits.hits)
    pub best : r.hits.max_score ≡ first_score r.hits.hits

  pub found_order : IsScoreOrder → IsOrder (lower_score lib s)
  found_order o = record {
    asymmetric = λ x y. o.asymmetric x.0 y.0;
    transitive = λ x y z. o.transitive x.0 y.0 z.0;
  }

  pub paginated-IsSorted :
      (from size : ℕ) (hits : List (Found lib s))
      → IsScoreOrder
      → IsSorted (lower_score lib s) (paginated lib s from size hits)
  unfolding paginated
  paginated-IsSorted from size hits o = take-IsSorted (lower_score lib s) size _ (
      drop-IsSorted (lower_score lib s) from _
        (sort_by-IsSorted (lower_score lib s) (found_order o) hits))

  length-paginated :
      (from size : ℕ) (hits : List (Found lib s)) → length (paginated lib s from size hits) ≤ size
  unfolding paginated
  length-paginated from size hits =
      length-take-le size (drop from (sort_by (lower_score lib s) hits))

  pub found_scores : List (Found lib s) → List (Option s.Score)
  found_scores = map (λ (f : Found lib s). some f.0)

  -- A document that is retrieved comes with the score with which it was found.
  retrieve_from-score :
      (reader : Option lib.Reader) (score : s.Score) (addr : s.Address) (world : lib.World)
      (hit : Hit s.Score)
      → retrieve_from lib s reader score addr world ≡ returns hit
      → hit._score ≡ some score
  retrieve_from-score none score addr world hit h = absurd (cc h)
  retrieve_from-score (some reader) score addr world hit h =
      of_document (s.doc (s.searcher reader world) addr) h
    where
      of_document :
          (r : Result Text s.Document)
          → retrieved lib s (s.searcher reader world) score r ≡ returns hit
          → hit._score ≡ some score
      of_document (ok document) e = ap (λ (x : Hit s.Score). x._score) (sym (returns-injective e))
      of_document (err e) q = absurd (cc q)

  retrieve-scores :
      (readers : List lib.Reader) (page : List (Found lib s)) (world : lib.World)
      (hits : List (Hit s.Score))
      → retrieve lib s readers page world ≡ returns hits
      → scores hits ≡ found_scores page
  unfolding retrieve found_scores
  retrieve-scores readers [] world hits h = ap scores (sym (returns-injective h))
  retrieve-scores readers ((score, i, addr) ∷ page) world hits h =
      let one = retrieve_from lib s (reader_at lib s readers i) score addr world in
      let (hit, first, more) = >>=-eq-returns one _ h in
      let (rest, others, all) = >>=-eq-returns (retrieve lib s readers page world) _ more in
      ap scores (sym (returns-injective all))
      ∙ (ap (λ x. x ∷ scores rest)
            (retrieve_from-score (reader_at lib s readers i) score addr world hit first)
          ∙ ap (λ l. some score ∷ l) (retrieve-scores readers page world rest others))

  -- Inversion of `go_on`.
  pub go_on-returns :
      {A B : Type 0} (m : Attempt Text A) (f : A → lib.World → Searched lib s B) (world : lib.World)
      (b : B)
      → (go_on lib s m f world).0 ≡ returns b
      → (a : A) × (m ≡ returns a) × ((f a world).0 ≡ returns b)
  go_on-returns (returns a) f world b h = (a, refl, h)
  go_on-returns (fails e) f world b h = absurd (cc h)
  go_on-returns panics f world b h = absurd (cc h)

  response-IsPage :
      (readers : List lib.Reader) (aggs : Option s.Aggregations) (g : Globals lib s) (from size : ℕ)
      (hits : List (Hit s.Score))
      → IsScoreOrder
      → scores hits ≡ found_scores (paginated lib s from size g.hits)
      → IsPage size (respond lib s readers aggs g (paginated lib s from size g.hits) hits)
  unfolding found_scores
  response-IsPage readers aggs g from size hits o e =
      let page = paginated lib s from size g.hits in
      record {
        at_most = rw (← length-map (λ (h : Hit s.Score). h._score) hits) (
            rw e (
              rw (length-map (λ (f : Found lib s). some f.0) page)
                (length-paginated from size g.hits)));
        descending = rw e (
            map-IsSorted (lower_score lib s) lower_option (λ f. some f.0) (λ x y. refl) page
              (paginated-IsSorted from size g.hits o));
        best = first_of page hits e;
      }
    where
      first_of :
          (page : List (Found lib s)) (hs : List (Hit s.Score))
          → scores hs ≡ found_scores page
          → max_score_of lib s page ≡ first_score hs
      first_of [] [] q = refl
      first_of [] (h ∷ hs) q = absurd (cc q)
      first_of ((score, i, addr) ∷ page) [] q = absurd (cc q)
      first_of ((score, i, addr) ∷ page) (h ∷ hs) q = cc q

  -- If scores are totally ordered, a search that is answered gives no more hits than its size, the
  -- best scores first, and the score of the first hit as the greatest.
  pub execute_search-IsPage :
      (meanwhile : lib.World → lib.World) (readers : List lib.Reader) (query_str : Text)
      (from size : ℕ) (aggs : Option s.Aggregations) (world : lib.World)
      (r : SearchResponse s.Score s.Aggregated)
      → IsScoreOrder
      → (execute_search lib s meanwhile readers query_str from size aggs world).0 ≡ returns r
      → IsPage size r
  unfolding execute_search
  execute_search-IsPage meanwhile readers query_str from size aggs world r o h =
      let (found, searched) =
        collect lib s query_str (limit from size) aggs readers 0 (no_globals lib s) world in
      let (g, _, page) = go_on-returns found _ searched r h in
      let (hits, retrieved_all, e) =
        go_on-returns
          (retrieve lib s readers (paginated lib s from size g.hits) (meanwhile searched)) _
          (meanwhile searched) r page in
      rw (← returns-injective e) (
        response-IsPage readers aggs g from size hits o
          (retrieve-scores readers _ _ hits retrieved_all))
