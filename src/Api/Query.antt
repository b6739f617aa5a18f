-- ===== src/Api/Query.antt =====
-- `extract_query_string` of src/api/search.rs.
use edgewit.Prelude.{
  ◌≡◌, refl, ap, Option, none, some, List, [], ◌∷◌, ◌++◌, Text, Assoc, ascii, text_eq,
}
use mathlib.Core.Option
use edgewit.Json.{
  Value, object, array, string, entry, no_entries, Items, item, no_items, get, find_entry, as_str,
  as_object, as_array, to_list,
}
use edgewit.Indexer.Document.{join}

-- `o.and_then(f)`
abbrev pub and_then : {A B : Type 0} → Option A → (A → Option B) → Option B
and_then none f = none
and_then (some a) f = f a

-- `if let Some(x) = first { return x }` and what follows.
abbrev pub or_next : Option Text → Option Text → Option Text
or_next (some x) rest = some x
or_next none rest = rest

abbrev pub term : Text → Text → Text
term k s = k ++ (ascii ":" ++ s)

-- The value of one entry of a `match`: a text, or an object with a text under `query`.
abbrev pub match_value : Value → Option Text
match_value v = or_next (as_str v) (and_then (get v (ascii "query")) as_str)

abbrev pub match_term : Text → Value → Option Text
match_term k v = Option.map (term k) (match_value v)

-- The first entry that has a text.
unfoldable pub first_match : Assoc Value → Option Text
first_match [] = none
first_match ((k, v) ∷ obj) = or_next (match_term k v) (first_match obj)

abbrev pub prepend : Option Text → List Text → List Text
prepend none parts = parts
prepend (some part) parts = part ∷ parts

unfoldable pub match_parts : Assoc Value → List Text
match_parts [] = []
match_parts ((k, v) ∷ obj) = prepend (match_term k v) (match_parts obj)

abbrev pub phrase : Text → Text → Text
phrase k s = k ++ (ascii ":\"" ++ (s ++ ascii "\""))

unfoldable pub phrase_parts : Assoc Value → List Text
phrase_parts [] = []
phrase_parts ((k, v) ∷ obj) = prepend (Option.map (phrase k) (as_str v)) (phrase_parts obj)

-- One item of `must`, given its `match` and its `match_phrase` as objects.
abbrev pub item_parts : Option (Assoc Value) → Option (Assoc Value) → List Text
item_parts (some obj) phrases = match_parts obj
item_parts none (some obj) = phrase_parts obj
item_parts none none = []

abbrev pub field_object : Value → Text → Option (Assoc Value)
field_object v k = and_then (get v k) as_object

unfoldable pub must_parts : List Value → List Text
must_parts [] = []
must_parts (it ∷ items) =
    item_parts (field_object it (ascii "match")) (field_object it (ascii "match_phrase"))
    ++ must_parts items

abbrev pub joined : List Text → Option Text
joined [] = none
joined (part ∷ parts) = some (join (ascii " AND ") (part ∷ parts))

abbrev pub star : Text
star = ascii "*"

abbrev pub star_if : Option Value → Option Text
star_if none = none
star_if (some v) = some star

-- The alternatives for the query of a body, in order.
unfoldable pub query_text : Value → Option Text
query_text q =
    or_next
      (and_then (and_then (get q (ascii "query_string")) (λ qs. get qs (ascii "query"))) as_str)
      (or_next (star_if (get q (ascii "match_all"))) (
        or_next (and_then (field_object q (ascii "match")) first_match) (
          and_then (and_then (and_then (get q (ascii "bool")) (λ b. get b (ascii "must"))) as_array)
            (λ items. joined (must_parts items)))))

abbrev pub or_star : Option Text → Text
or_star none = star
or_star (some s) = s

-- `q` is the parameter, `query` that of the body.
unfoldable pub extract_query_string : Option Text → Option Value → Text
extract_query_string (some q) query = q
extract_query_string none query = or_star (and_then query query_text)

-- A `must` of texts to match.
abbrev pub match_item : Text × Text → Value
match_item (k, s) =
    object (entry (ascii "match") (object (entry k (string s) no_entries)) no_entries)

abbrev pub match_items : List (Text × Text) → Items
match_items [] = no_items
match_items (p ∷ ps) = item (match_item p) (match_items ps)

abbrev pub must_query : List (Text × Text) → Value
must_query ps = object (
    entry (ascii "bool") (object (entry (ascii "must") (array (match_items ps)) no_entries))
      no_entries)

abbrev pub terms : List (Text × Text) → List Text
terms [] = []
terms ((k, s) ∷ ps) = term k s ∷ terms ps

must_parts-match_items :
    (ps : List (Text × Text)) → must_parts (to_list (match_items ps)) ≡ terms ps
unfolding must_parts match_parts get find_entry text_eq
must_parts-match_items [] = refl
must_parts-match_items (p ∷ ps) = ap (◌∷◌ (term p.0 p.1)) (must_parts-match_items ps)

-- A query whose `must` lists texts to match in fields, at least one, becomes the terms
-- `field:text` in order, joined by ` AND `.
pub extract_query_string-must_query :
    (p : Text × Text) (ps : List (Text × Text))
    → extract_query_string none (some (must_query (p ∷ ps))) ≡ join (ascii " AND ") (terms (p ∷ ps))
unfolding extract_query_string query_text get find_entry text_eq
extract_query_string-must_query p ps =
    ap (λ parts. or_star (joined parts)) (must_parts-match_items (p ∷ ps))
