-- ===== src/Api/Router/Tests.antt =====
-- Requests to the routes, with the first route that fits chosen.
use edgewit.Prelude.{
  ◌≡◌, ◌↔◌, Bool, true, false, ◌&&◌, Option, none, some, List, [], ◌∷◌, Text, ascii, text_eq,
  if◌then◌else◌, ok,
}
use edgewit.Api.Router.{
  Segment, exact, index, Route, routes, get, root_route, dispatch, Answers, MayPass, dispatch_iff,
}

fits : List Segment → List Text → Bool
fits [] [] = true
fits (exact t ∷ ss) (p ∷ ps) = text_eq t p && fits ss ps
fits (index ∷ ss) (p ∷ ps) = fits ss ps
fits _ _ = false

pick : List Route → List Text → Option Route
pick [] path = none
pick (r ∷ rs) path = if fits r.path path then some r else pick rs path

dispatch_iff_example :
    (dispatch pick true (some (ascii "k")) (some (ascii "Bearer k")) get [] ≡ ok root_route) ↔ (
      Answers (pick routes []) get root_route
      × MayPass (some (ascii "k")) (some (ascii "Bearer k")))
dispatch_iff_example =
    dispatch_iff pick true (some (ascii "k")) (some (ascii "Bearer k")) get [] root_route
