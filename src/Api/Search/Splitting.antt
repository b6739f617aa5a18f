-- ===== src/Api/Search/Splitting.antt =====
-- Pages of `execute_search` in src/api/search.rs that follow one another.
use edgewit.Prelude.{
  ℕ, ◌+◌, ◌^◌, ◌<◌, ◌≡◌, refl, sym, ap, ◌∙◌, none, List, [], ◌∷◌, ◌++◌, take, drop, take_add,
  drop-drop, Text, arith,
}
use edgewit.Prelude.Attempts.{returns, >>=-eq-returns, returns-injective}
use edgewit.Prelude.Sorting.{sort_by}
use edgewit.Prelude.Sorting.Top.{concat}
use edgewit.Indexer.Engine.{Engine}
use edgewit.Api.Searching.{Searching}
use edgewit.Api.Search.{
  Found, lower_score, reader_at, retrieve, retrieve_from, respond, execute_search,
}
use edgewit.Api.Hits.{Hit, SearchResponse}
use edgewit.Api.Search.Ranking.{Documented, all_matches, expected}
use edgewit.Api.Search.Slices.{whole_page, all_found, execute_search-expected}

module _ (lib : Engine) (s : Searching lib) where
  retrieve_cons :
      (readers : List lib.Reader) (score : s.Score) (i : ℕ) (addr : s.Address)
      (ps : List (Found lib s)) (w : lib.World) (hit : Hit s.Score) (hits : List (Hit s.Score))
      → retrieve_from lib s (reader_at lib s readers i) score addr w ≡ returns hit
      → retrieve lib s readers ps w ≡ returns hits
      → retrieve lib s readers ((score, i, addr) ∷ ps) w ≡ returns (hit ∷ hits)
  unfolding retrieve
  retrieve_cons readers score i addr ps w hit hits h k = rw (h, k) refl

  -- The documents of a page are those of its parts.
  retrieve-append :
      (readers : List lib.Reader) (ps qs : List (Found lib s)) (w : lib.World)
      (hits : List (Hit s.Score))
      → retrieve lib s readers (ps ++ qs) w ≡ returns hits
      → (h1 : List (Hit s.Score)) × (h2 : List (Hit s.Score)) × (retrieve lib s readers ps w
          ≡ returns h1)
        × (retrieve lib s readers qs w ≡ returns h2)
        × (hits ≡ h1 ++ h2)
  unfolding retrieve
  retrieve-append readers [] qs w hits h = ([], hits, refl, h, refl)
  retrieve-append readers ((score, i, addr) ∷ ps) qs w hits h =
      let (hit, first, more) =
        >>=-eq-returns (retrieve_from lib s (reader_at lib s readers i) score addr w) _ h in
      let (rest, others, all) = >>=-eq-returns (retrieve lib s readers (ps ++ qs) w) _ more in
      let (h1, h2, left, right, e) = retrieve-append readers ps qs w rest others in
      (
        hit ∷ h1,
        h2,
        retrieve_cons readers score i addr ps w hit h1 first left,
        right,
        sym (returns-injective all) ∙ ap (◌∷◌ hit) e,
      )

  module _ (view : lib.Reader → s.Searcher)
      (ranking : s.Searcher → s.Query → List (s.Score × s.Address))
      (doc : Documented lib s view ranking) where
    whole_page-add :
        (from a b : ℕ) (mss : List (List (Found lib s)))
        → whole_page lib s view ranking doc from (a + b) mss
          ≡ whole_page lib s view ranking doc from a mss
            ++ whole_page lib s view ranking doc (from + a) b mss
    whole_page-add from a b mss =
        let all = sort_by (lower_score lib s) (concat mss) in
        take_add a b (drop from all)
        ∙ ap (λ l. take a (drop from all) ++ take b l) (drop-drop from a all)

    abbrev pub Response : Type 0
    Response = SearchResponse s.Score s.Aggregated

    expected_returns :
        (readers : List lib.Reader) (query_str : Text) (from size : ℕ) (world : lib.World)
        (mss : List (List (Found lib s))) (hits : List (Hit s.Score))
        → all_matches lib s view ranking query_str readers 0 ≡ returns mss
        → retrieve lib s readers (whole_page lib s view ranking doc from size mss) world
          ≡ returns hits
        → expected lib s view ranking readers query_str from size world
          ≡ returns (
              respond lib s readers none
                (all_found lib s view ranking doc mss)
                (whole_page lib s view ranking doc from size mss)
                hits)
    unfolding expected
    expected_returns readers query_str from size world mss hits m e = rw (m, e) refl

    -- Under the same promises of the library, if a page of a search is answered, so are its first
    -- part and the part behind it, their hits one after the other are those of the page, and all
    -- three give the same total.
    pub execute_search_in_two :
        (meanwhile : lib.World → lib.World) (readers : List lib.Reader) (query_str : Text)
        (from a b : ℕ) (world : lib.World) (r : Response)
        → from + (a + b) < 2 ^ 64
        → (execute_search lib s meanwhile readers query_str from (a + b) none world).0 ≡ returns r
        → (r1 : Response) × (r2 : Response) × ((execute_search lib s meanwhile readers query_str
              from a none world).0
            ≡ returns r1)
          × ((execute_search lib s meanwhile readers query_str (from + a) b none world).0
              ≡ returns r2)
          × (r.hits.hits ≡ r1.hits.hits ++ r2.hits.hits)
          × (r.hits.total ≡ r1.hits.total)
          × (r.hits.total ≡ r2.hits.total)
    unfolding expected
    execute_search_in_two meanwhile readers query_str from a b world r small h =
        let slice = execute_search-expected lib s view ranking doc meanwhile readers query_str in
        let whole = sym (slice from (a + b) world small) ∙ h in
        let (mss, matched, more) =
          >>=-eq-returns (all_matches lib s view ranking query_str readers 0) _ whole in
        let (hits, fetched, answered) =
          >>=-eq-returns
            (retrieve lib s readers (whole_page lib s view ranking doc from (a + b) mss) world) _
            more in
        let (h1, h2, left, right, e) =
          retrieve-append readers (whole_page lib s view ranking doc from a mss)
            (whole_page lib s view ranking doc (from + a) b mss) world hits
            (rw (← whole_page-add from a b mss) fetched) in
        (
          respond lib s readers none (all_found lib s view ranking doc mss)
              (whole_page lib s view ranking doc from a mss) h1,
          respond lib s readers none (all_found lib s view ranking doc mss)
              (whole_page lib s view ranking doc (from + a) b mss) h2,
          slice from a world (omega arith)
              ∙ expected_returns readers query_str from a world mss h1 matched left,
          slice (from + a) b world (omega arith)
              ∙ expected_returns readers query_str (from + a) b world mss h2 matched right,
          ap (λ (x : Response). x.hits.hits) (sym (returns-injective answered)) ∙ e,
          ap (λ (x : Response). x.hits.total) (sym (returns-injective answered)),
          ap (λ (x : Response). x.hits.total) (sym (returns-injective answered)),
        )
