-- ===== src/Api/Search/Collecting.antt =====
-- What the loop of `execute_search` in src/api/search.rs over the readers keeps of all matches.
use edgewit.Prelude.{
  ℕ, suc, ◌+◌, ◌%◌, ◌^◌, ◌<◌, ◌≡◌, refl, sym, ap, ◌∙◌, Option, none, some, List, [], ◌∷◌, ◌++◌, map,
  length, take, take-map, take_nil, length-map, length-append, append_assoc, append-nil, All, Text,
  arith,
}
use edgewit.Prelude.Attempts.{
  Attempt, returns, fails, panics, ◌>>=◌, >>=-eq-returns, >>=-assoc, returns-injective,
}
use edgewit.Prelude.Sorting.{IsSorted, map-IsSorted}
use edgewit.Prelude.Sorting.Top.{concat}
use edgewit.Wal.Frame.{add64}
use edgewit.Indexer.Engine.{Engine}
use edgewit.Api.Searching.{Searching}
use edgewit.Api.Search.{
  Globals, Found, tag, source_field, query_of, with_field, search_reader, collect, lower_score,
  go_on, run_query,
}
use edgewit.Api.Search.Ranking.{lower_pair, Documented, field_matches, all_matches}

module _ (lib : Engine) (s : Searching lib) where
  module _ (view : lib.Reader → s.Searcher)
      (ranking : s.Searcher → s.Query → List (s.Score × s.Address)) where
    -- What `collect` keeps of the matches of one reader, and of all.
    abbrev pub gather : ℕ → Globals lib s → List (Found lib s) → Globals lib s
    gather lim g ms = record g {
      total_docs = add64 g.total_docs (length ms);
      hits = g.hits ++ take lim ms;
    }

    abbrev pub gathered : ℕ → Globals lib s → List (List (Found lib s)) → Globals lib s
    gathered lim g [] = g
    gathered lim g (ms ∷ mss) = gathered lim (gather lim g ms) mss

    module _ (doc : Documented lib s view ranking) where
      run_query-ranking :
          (v : s.Searcher) (q : s.Query) (lim i : ℕ) (g : Globals lib s)
          → 0 < lim
          → run_query lib s v q lim none i g
            ≡ returns (gather lim g (map (tag lib s i) (ranking v q)))
      run_query-ranking v q lim i g pos =
          rw (doc.top v q lim pos, length-map (tag lib s i) (ranking v q))
            (ap
              (λ (l : List (Found lib s)). returns (record g {
                total_docs = add64 g.total_docs (length (ranking v q));
                hits = g.hits ++ l;
              }))
              (sym (take-map (tag lib s i) lim (ranking v q))))

      gather_nothing : (lim : ℕ) (g : Globals lib s) → g.total_docs < 2 ^ 64 → gather lim g [] ≡ g
      gather_nothing lim g h = rw (take_nil {A = Found lib s} lim, append-nil g.hits) (ground arith)

      search_reader-field_matches :
          (v : s.Searcher) (query_str : Text) (lim i : ℕ) (g : Globals lib s)
          (field : Option s.Field)
          → 0 < lim
          → g.total_docs < 2 ^ 64
          → with_field lib s v query_str lim none i g field ≡ (
              field_matches lib s view ranking v query_str field >>= λ ms.
              returns (gather lim g (map (tag lib s i) ms)))
      search_reader-field_matches v query_str lim i g none pos small =
          ap returns (sym (gather_nothing lim g small))
      search_reader-field_matches v query_str lim i g (some field) pos small =
          of_query (query_of lib s v field query_str)
        where
          of_query :
              (q : Attempt Text s.Query)
              → (q >>= λ query. run_query lib s v query lim none i g) ≡ (
                  (q >>= λ query. returns (ranking v query)) >>= λ ms.
                  returns (gather lim g (map (tag lib s i) ms)))
          of_query (returns query) = run_query-ranking v query lim i g pos
          of_query (fails e) = refl
          of_query panics = refl

      gather_small :
          (lim : ℕ) (g : Globals lib s) (ms : List (Found lib s))
          → (gather lim g ms).total_docs < 2 ^ 64
      gather_small lim g ms = omega arith

      -- The loop over the readers keeps of the matches what `gathered` says.
      pub collect-all_matches :
          (query_str : Text) (lim : ℕ) (rs : List lib.Reader) (i : ℕ) (g : Globals lib s)
          (world : lib.World)
          → 0 < lim
          → g.total_docs < 2 ^ 64
          → (collect lib s query_str lim none rs i g world).0 ≡ (
              all_matches lib s view ranking query_str rs i >>= λ mss. returns (gathered lim g mss))
      unfolding collect all_matches search_reader
      collect-all_matches query_str lim [] i g world pos small = refl
      collect-all_matches query_str lim (r ∷ rs) i g world pos small =
          let reloaded = (s.reload r world).1 in
          rw (doc.steady r reloaded) (
            rw
              (search_reader-field_matches (view r) query_str lim i g (source_field lib s (view r))
                pos small)
              (of_matches
                (λ ms.
                  collect-all_matches query_str lim rs (suc i) (gather lim g (map (tag lib s i) ms))
                    reloaded pos (gather_small lim g (map (tag lib s i) ms)))
                (field_matches lib s view ranking (view r) query_str
                  (source_field lib s (view r)))))
        where
          of_matches :
              ((ms : List (s.Score × s.Address))
                → (collect lib s query_str lim none rs
                    (suc i)
                    (gather lim g (map (tag lib s i) ms))
                    (s.reload r world).1).0
                  ≡ (all_matches lib s view ranking query_str rs (suc i) >>= λ mss.
                      returns (gathered lim (gather lim g (map (tag lib s i) ms)) mss)))
              → (m : Attempt Text (List (s.Score × s.Address)))
              → (go_on lib s
                  (m >>= λ ms. returns (gather lim g (map (tag lib s i) ms)))
                  (collect lib s query_str lim none rs (suc i))
                  (s.reload r world).1).0
                ≡ ((m >>= λ ms. all_matches lib s view ranking query_str rs (suc i) >>= λ rest.
                      returns (map (tag lib s i) ms ∷ rest))
                    >>= λ mss. returns (gathered lim g mss))
          of_matches ih (returns ms) =
              ih ms
              ∙ sym (
                  >>=-assoc (all_matches lib s view ranking query_str rs (suc i))
                    (λ rest. returns (map (tag lib s i) ms ∷ rest))
                    (λ mss. returns (gathered lim g mss)))
          of_matches ih (fails e) = refl
          of_matches ih panics = refl

      pub gathered-hits :
          (lim : ℕ) (g : Globals lib s) (mss : List (List (Found lib s)))
          → (gathered lim g mss).hits ≡ g.hits ++ concat (map (take lim) mss)
      unfolding concat
      gathered-hits lim g [] = sym (append-nil g.hits)
      gathered-hits lim g (ms ∷ mss) =
          gathered-hits lim (gather lim g ms) mss ∙ append_assoc g.hits (take lim ms) _

      pub gathered-total :
          (lim : ℕ) (g : Globals lib s) (mss : List (List (Found lib s)))
          → (gathered lim g mss).total_docs % 2 ^ 64 ≡ (g.total_docs + length (concat mss)) % 2 ^ 64
      unfolding concat
      gathered-total lim g [] = omega arith
      gathered-total lim g (ms ∷ mss) =
          omega (arith, gathered-total lim (gather lim g ms) mss, length-append ms (concat mss))

      pub gathered-small :
          (lim : ℕ) (g : Globals lib s) (mss : List (List (Found lib s)))
          → g.total_docs < 2 ^ 64
          → (gathered lim g mss).total_docs < 2 ^ 64
      gathered-small lim g [] h = h
      gathered-small lim g (ms ∷ mss) h =
          gathered-small lim (gather lim g ms) mss (gather_small lim g ms)

      pub gathered-aggs :
          (lim : ℕ) (g : Globals lib s) (mss : List (List (Found lib s)))
          → (gathered lim g mss).aggs ≡ g.aggs
      gathered-aggs lim g [] = refl
      gathered-aggs lim g (ms ∷ mss) = gathered-aggs lim (gather lim g ms) mss

      field_matches-ranked :
          (v : s.Searcher) (query_str : Text) (field : Option s.Field)
          (ms : List (s.Score × s.Address))
          → field_matches lib s view ranking v query_str field ≡ returns ms
          → IsSorted (lower_pair lib s) ms
      field_matches-ranked v query_str none ms h = rw (← returns-injective h) tt
      field_matches-ranked v query_str (some field) ms h =
          let (q, _, e) = >>=-eq-returns (query_of lib s v field query_str) _ h in
          rw (← returns-injective e) (doc.ranked v q)

      pub all_matches-ranked :
          (query_str : Text) (rs : List lib.Reader) (i : ℕ) (mss : List (List (Found lib s)))
          → all_matches lib s view ranking query_str rs i ≡ returns mss
          → All (λ ms. IsSorted (lower_score lib s) ms) mss
      unfolding all_matches
      all_matches-ranked query_str [] i mss h = rw (← returns-injective h) tt
      all_matches-ranked query_str (r ∷ rs) i mss h =
          let (ms, found, more) =
            >>=-eq-returns
              (field_matches lib s view ranking (view r) query_str (source_field lib s (view r))) _
              h in
          let (rest, others, all) =
            >>=-eq-returns (all_matches lib s view ranking query_str rs (suc i)) _ more in
          rw (← returns-injective all) (
            map-IsSorted (lower_pair lib s) (lower_score lib s) (tag lib s i) (λ x y. refl) ms
                (field_matches-ranked (view r) query_str (source_field lib s (view r)) ms found),
            all_matches-ranked query_str rs (suc i) rest others,
          )
