-- ===== src/Api/Search/Slices.antt =====
-- The pages of `execute_search` in src/api/search.rs as slices of the ranking of all matches.
use edgewit.Prelude.{
  ℕ, zero, suc, ◌+◌, ◌%◌, ◌^◌, ◌<◌, ◌≡◌, refl, sym, ap, ◌∙◌, Option, none, some, List, [], ◌∷◌, map,
  length, take, drop, take-drop, All, Text, arith,
}
use edgewit.Prelude.Attempts.{Attempt, returns, fails, panics, ◌>>=◌}
use edgewit.Prelude.Sorting.{IsSorted, sort_by}
use edgewit.Prelude.Sorting.Top.{concat, take-sort_by-concat}
use edgewit.Indexer.Engine.{Engine}
use edgewit.Api.Searching.{Searching}
use edgewit.Api.Search.{
  Globals, Found, Searched, collect, no_globals, limit, lower_score, paginated, reader_at, retrieve,
  retrieve_from, respond, answer_page, go_on, execute_search,
}
use edgewit.Api.Hits.{Hit}
use edgewit.Api.Search.Page.{found_order}
use edgewit.Api.Search.Ranking.{Documented, all_matches, expected}
use edgewit.Api.Search.Collecting.{
  gathered, collect-all_matches, gathered-hits, gathered-total, gathered-small, gathered-aggs,
  all_matches-ranked,
}

limit-pos : (from size : ℕ) → from + size < 2 ^ 64 → 0 < limit from size
unfolding limit
limit-pos from size h = ground arith

limit_enough : (from size : ℕ) → from + suc size < 2 ^ 64 → limit from (suc size) ≡ from + suc size
unfolding limit
limit_enough from size h = ground arith

module _ (lib : Engine) (s : Searching lib) (view : lib.Reader → s.Searcher)
    (ranking : s.Searcher → s.Query → List (s.Score × s.Address))
    (doc : Documented lib s view ranking) where
  abbrev pub whole_page : ℕ → ℕ → List (List (Found lib s)) → List (Found lib s)
  whole_page from size mss = take size (drop from (sort_by (lower_score lib s) (concat mss)))

  -- The first hits of each reader are enough.
  paginated-concat :
      (from size : ℕ) (mss : List (List (Found lib s)))
      → from + size < 2 ^ 64
      → All (λ ms. IsSorted (lower_score lib s) ms) mss
      → paginated lib s from size (concat (map (take (limit from size)) mss))
        ≡ whole_page from size mss
  unfolding paginated
  paginated-concat from zero mss small h = refl
  paginated-concat from (suc size) mss small h =
      let lower = lower_score lib s in
      rw (limit_enough from size small) (
        take-drop from (suc size) (sort_by lower (concat (map (take (from + suc size)) mss)))
        ∙ (ap (drop from)
              (take-sort_by-concat lower (found_order lib s doc.order) (from + suc size) mss h)
            ∙ sym (take-drop from (suc size) (sort_by lower (concat mss)))))

  retrieve_steady :
      (readers : List lib.Reader) (page : List (Found lib s)) (w w' : lib.World)
      → retrieve lib s readers page w ≡ retrieve lib s readers page w'
  unfolding retrieve
  retrieve_steady readers [] w w' = refl
  retrieve_steady readers ((score, i, addr) ∷ page) w w' = rw (retrieve_steady readers page w w') (
      ap
        (λ (m : Attempt Text (Hit s.Score)).
          m >>= λ hit. retrieve lib s readers page w' >>= λ hits. returns (hit ∷ hits))
        (one (reader_at lib s readers i)))
    where
      one :
          (o : Option lib.Reader)
          → retrieve_from lib s o score addr w ≡ retrieve_from lib s o score addr w'
      one none = refl
      one (some r) = rw (doc.steady r w, doc.steady r w') refl

  abbrev pub all_found : List (List (Found lib s)) → Globals lib s
  all_found mss = record {
    total_docs = length (concat mss) % 2 ^ 64;
    hits = concat mss;
    aggs = none;
  }

  respond_found :
      (readers : List lib.Reader) (lim : ℕ) (mss : List (List (Found lib s)))
      (page : List (Found lib s)) (hits : List (Hit s.Score))
      → respond lib s readers none
          (gathered lib s view ranking lim (no_globals lib s) mss)
          page
          hits
        ≡ respond lib s readers none (all_found mss) page hits
  respond_found readers lim mss page hits =
      let none_yet = no_globals lib s in
      rw (gathered-aggs lib s view ranking doc lim none_yet mss) (
        ap
          (λ (n : ℕ).
            respond lib s readers none (record (all_found mss) { total_docs = n }) page hits)
          (omega (
            arith,
            gathered-total lib s view ranking doc lim none_yet mss,
            gathered-small lib s view ranking doc lim none_yet mss (omega arith),
          )))

  answer_expected :
      (readers : List lib.Reader) (lim : ℕ) (mss : List (List (Found lib s)))
      (page : List (Found lib s)) (w w' : lib.World)
      → (answer_page lib s readers none
          (gathered lib s view ranking lim (no_globals lib s) mss)
          page
          w').0
        ≡ (retrieve lib s readers page w >>= λ hits.
            returns (respond lib s readers none (all_found mss) page hits))
  answer_expected readers lim mss page w w' =
      rw (retrieve_steady readers page w w') (of_hits (retrieve lib s readers page w'))
    where
      of_hits :
          (m : Attempt Text (List (Hit s.Score)))
          → (go_on lib s m
              (λ hits v. (
                returns (
                    respond lib s readers none
                      (gathered lib s view ranking lim (no_globals lib s) mss)
                      page
                      hits),
                v,
              ))
              w').0
            ≡ (m >>= λ hits. returns (respond lib s readers none (all_found mss) page hits))
      of_hits (returns hits) = ap returns (respond_found readers lim mss page hits)
      of_hits (fails e) = refl
      of_hits panics = refl

  -- If scores are totally ordered, the library counts the matches of a query and gives the first
  -- of them, and no reader takes up a commit meanwhile, then a search without aggregations for a
  -- page whose end is below 2 ^ 64 gives the slice of the ranking of all matches in all readers,
  -- and their number, or the error of the first query that is refused, although each reader was
  -- asked only for its first hits.
  pub execute_search-expected :
      (meanwhile : lib.World → lib.World) (readers : List lib.Reader) (query_str : Text)
      (from size : ℕ) (world : lib.World)
      → from + size < 2 ^ 64
      → (execute_search lib s meanwhile readers query_str from size none world).0
        ≡ expected lib s view ranking readers query_str from size world
  unfolding execute_search expected
  execute_search-expected meanwhile readers query_str from size world small =
      of_matches (all_matches lib s view ranking query_str readers 0)
        (all_matches-ranked lib s view ranking doc query_str readers 0)
        (collect lib s query_str (limit from size) none readers 0 (no_globals lib s) world)
        (collect-all_matches lib s view ranking doc query_str (limit from size) readers 0
          (no_globals lib s) world (limit-pos from size small) (omega arith))
    where
      of_matches :
          (m : Attempt Text (List (List (Found lib s))))
          → ((mss : List (List (Found lib s)))
              → m ≡ returns mss
              → All (λ ms. IsSorted (lower_score lib s) ms) mss)
          → (c : Searched lib s (Globals lib s))
          → c.0 ≡ (
              m >>= λ mss.
              returns (gathered lib s view ranking (limit from size) (no_globals lib s) mss))
          → (go_on lib s c.0
              (λ g w.
                answer_page lib s readers none g (paginated lib s from size g.hits) (meanwhile w))
              c.1).0
            ≡ (m >>= λ mss. retrieve lib s readers (whole_page from size mss) world >>= λ hits.
                returns
                  (respond lib s readers none (all_found mss) (whole_page from size mss) hits))
      of_matches (returns mss) sorted c e = rw e (
          rw
            (
              gathered-hits lib s view ranking doc (limit from size) (no_globals lib s) mss,
              paginated-concat from size mss small (sorted mss refl),
            )
            (answer_expected readers (limit from size) mss (whole_page from size mss) world
              (meanwhile c.1)))
      of_matches (fails f) sorted c e = rw e refl
      of_matches panics sorted c e = rw e refl
