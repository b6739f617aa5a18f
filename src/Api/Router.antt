-- ===== src/Api/Router.antt =====
-- `app_router` of src/api/mod.rs.
pub mod Tests
use edgewit.Prelude.{
  ℕ, ◌≡◌, ◌⊎◌, ◌↔◌, inl, inr, refl, ap, ◌∙◌, sym, Bool, true, false, Option, none, some, List, [],
  ◌∷◌, ◌++◌, Text, ascii, Result, ok, err, if◌then◌else◌, arith,
}
use edgewit.Api.Auth.{
  auth_middleware, auth_middleware_iff, get_expected_auth_header, allowed, checked, matches,
}
use mathlib.Core.Option.{some-injective}

pub data Method : Type 0 where
  get head post put delete other : Method

pub data Handler : Type 0 where
  root_route version_route health_route stats_route cat_indexes_route : Handler
  metrics_route bulk_route ingest_doc_route list_indexes_route get_index_route : Handler
  create_index_route delete_index_route index_search_route : Handler

-- A segment of a path: a fixed one, or `{index}`.
pub data Segment : Type 0 where
  exact : Text → Segment
  index : Segment

abbrev pub Methods : Type 0
Methods = List (Method × Handler)

-- `get(handler)` also answers HEAD.
abbrev pub on_get : Handler → Methods
on_get h = (get, h) ∷ (head, h) ∷ []

abbrev pub on_post : Handler → Methods
on_post h = (post, h) ∷ []

pub record Route : Type 0 where
  pub path : List Segment
  pub methods : Methods

abbrev at : List Segment → Methods → Route
at path methods = record { path = path; methods = methods }

abbrev pub routes : List Route
routes =
    at [] (on_get root_route)
    ∷ at (exact (ascii "version") ∷ []) (on_get version_route)
    ∷ at (exact (ascii "_health") ∷ []) (on_get health_route)
    ∷ at (exact (ascii "_cluster") ∷ exact (ascii "health") ∷ []) (on_get health_route)
    ∷ at (exact (ascii "_stats") ∷ []) (on_get stats_route)
    ∷ at (exact (ascii "_cat") ∷ exact (ascii "indexes") ∷ []) (on_get cat_indexes_route)
    ∷ at (exact (ascii "metrics") ∷ []) (on_get metrics_route)
    ∷ at (exact (ascii "_bulk") ∷ []) (on_post bulk_route)
    ∷ at (index ∷ exact (ascii "_doc") ∷ []) (on_post ingest_doc_route)
    ∷ at (exact (ascii "indexes") ∷ []) (on_get list_indexes_route)
    ∷ at (exact (ascii "indexes") ∷ index ∷ [])
        (on_get get_index_route ++ (put, create_index_route) ∷ (delete, delete_index_route) ∷ [])
    ∷ at (exact (ascii "indexes") ∷ index ∷ exact (ascii "_search") ∷ [])
        (on_get index_search_route ++ on_post index_search_route)
    ∷ []

abbrev pub same_method : Method → Method → Bool
same_method get get = true
same_method head head = true
same_method post post = true
same_method put put = true
same_method delete delete = true
same_method _ _ = false

unfoldable pub handler_for : Method → Methods → Option Handler
handler_for m [] = none
handler_for m ((n, h) ∷ methods) = if same_method n m then some h else handler_for m methods

-- What the check of the key makes of a request whose route has no handler for its method.
abbrev pub no_method : Result ℕ (Unit {0}) → Result ℕ Handler
no_method (ok u) = err 405
no_method (err status) = err status

-- The layer is that of the routes; `covers` says whether the library puts it before the answer to a
-- method without a handler, too.
abbrev pub layered : Bool → Option Text → Option Text → Option Handler → Result ℕ Handler
layered false api_key header none = err 405
layered true api_key header none = no_method (auth_middleware api_key header tt)
layered covers api_key header (some h) = auth_middleware api_key header h

abbrev pub routed : Bool → Option Text → Option Text → Method → Option Route → Result ℕ Handler
routed covers api_key header m none = err 404
routed covers api_key header m (some r) = layered covers api_key header (handler_for m r.methods)

-- The handler that answers a request, or the status without one. `pick` is the library's choice of a
-- route for a path.
unfoldable pub dispatch :
    (List Route → List Text → Option Route)
    → Bool
    → Option Text
    → Option Text
    → Method
    → List Text
    → Result ℕ Handler
dispatch pick covers api_key header m path = routed covers api_key header m (pick routes path)

-- The request may pass: there is no key, an empty one, or the request brings it.
abbrev pub MayPass : Option Text → Option Text → Type 0
MayPass api_key header =
    (api_key ≡ none)
    ⊎ ((api_key ≡ some [])
        ⊎ ((key : Text) × (api_key ≡ some key) × (header ≡ some (ascii "Bearer " ++ key))))

abbrev pub Answers : Option Route → Method → Handler → Type 0
Answers none m h = ⊥
Answers (some r) m h = handler_for m r.methods ≡ some h

-- The middleware passes the answer on as it is, or refuses the request.
auth_middleware_cases :
    (api_key header : Option Text) (h : Handler)
    → (auth_middleware api_key header h ≡ ok h) ⊎ (auth_middleware api_key header h ≡ err 401)
unfolding auth_middleware
auth_middleware_cases api_key header h = by_key (get_expected_auth_header api_key)
  where
    by_check : (b : Bool) → (checked b h ≡ ok h) ⊎ (checked b h ≡ err 401)
    by_check true = inl refl
    by_check false = inr refl

    by_key : (o : Option Text) → (allowed o header h ≡ ok h) ⊎ (allowed o header h ≡ err 401)
    by_key none = inl refl
    by_key (some expected) = by_check (matches expected header)

no_method_refuses : (r : Result ℕ (Unit {0})) (h : Handler) → no_method r ≡ ok h → ⊥
no_method_refuses (ok u) h e = cc e
no_method_refuses (err status) h e = cc e

layered_iff :
    (covers : Bool) (api_key header : Option Text) (o : Option Handler) (h : Handler)
    → (layered covers api_key header o ≡ ok h) ↔ ((o ≡ some h) × MayPass api_key header)
layered_iff false api_key header none h = ground arith
layered_iff true api_key header none h =
    (λ e. absurd (no_method_refuses (auth_middleware api_key header tt) h e), λ p. absurd (cc p.0))
layered_iff covers api_key header (some g) h = (
  λ e. elim (auth_middleware_cases api_key header g) [
    | inl p ↦ (ap some (ok-injective (sym p ∙ e)), (auth_middleware_iff api_key header g).0 p)
    | inr q ↦ absurd (cc (q, e))
  ],
  λ (same, may). (auth_middleware_iff api_key header g).1 may ∙ ap ok (some-injective _ _ same),
)
  where
    ok-injective : ◌≡◌ {A = Result ℕ Handler} (ok g) (ok h) → g ≡ h
    ok-injective p = cc p

-- Whatever route is chosen for a path, a request gets to a handler exactly if the chosen route has
-- that handler for its method, and no key is configured, or an empty one, or the request's
-- authorization is `Bearer`, a space and the key.
pub dispatch_iff :
    (pick : List Route → List Text → Option Route) (covers : Bool) (api_key header : Option Text)
    (m : Method) (path : List Text) (h : Handler)
    → (dispatch pick covers api_key header m path ≡ ok h)
      ↔ (Answers (pick routes path) m h × MayPass api_key header)
unfolding dispatch
dispatch_iff pick covers api_key header m path h = by_route (pick routes path)
  where
    by_route :
        (o : Option Route)
        → (routed covers api_key header m o ≡ ok h) ↔ (Answers o m h × MayPass api_key header)
    by_route none = ground arith
    by_route (some r) = layered_iff covers api_key header (handler_for m r.methods) h
