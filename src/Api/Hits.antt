-- ===== src/Api/Hits.antt =====
-- src/api/search.rs: the types of a request and its answer, and what a stored document has for a hit.
use edgewit.Prelude.{ℕ, Bool, ◌||◌, Option, none, some, List, [], ◌∷◌, Text, ascii, text_eq}
use edgewit.Prelude.Trim.{trim}
use edgewit.Json.{Value, null, get, as_array, as_str}
use edgewit.Api.Query.{and_then}

pub record SearchQueryParams : Type 0 where
  pub q : Option Text
  pub from : Option ℕ
  pub size : Option ℕ

-- `Aggs` is the library's `Aggregations`.
pub record SearchRequestBody (Aggs : Type 0) : Type 0 where
  pub query : Option Value
  pub from : Option ℕ
  pub size : Option ℕ
  pub sort : Option Value
  pub aggs : Option Aggs

pub record ShardsInfo : Type 0 where
  pub total : ℕ
  pub successful : ℕ
  pub skipped : ℕ
  pub failed : ℕ

pub record TotalHits : Type 0 where
  pub value : ℕ
  pub relation : Text

pub record Hit (Score : Type 0) : Type 0 where
  pub _index : Text
  pub _id : Text
  pub _score : Option Score
  pub _source : Value

pub record HitsInfo (Score : Type 0) : Type 0 where
  pub total : TotalHits
  pub max_score : Option Score
  pub hits : List (Hit Score)

-- The time that it took is left out.
pub record SearchResponse (Score Aggregated : Type 0) : Type 0 where
  pub timed_out : Bool
  pub _shards : ShardsInfo
  pub hits : HitsInfo Score
  pub aggregations : Option Aggregated

-- `query_str.trim().is_empty() || query_str.trim() == "*"`
unfoldable pub is_match_all : Text → Bool
is_match_all query_str = text_eq (trim query_str) [] || text_eq (trim query_str) (ascii "*")

-- The value under `_source`: the first of an array, `null` if the array is empty, or the value itself.
abbrev pub first_or_null : List Value → Value
first_or_null [] = null
first_or_null (v ∷ vs) = v

abbrev pub array_or_itself : Value → Option (List Value) → Value
array_or_itself v none = v
array_or_itself v (some vs) = first_or_null vs

abbrev pub source_value : Option Value → Value
source_value none = null
source_value (some v) = array_or_itself v (as_array v)

abbrev pub first_text : List Value → Option Text
first_text [] = none
first_text (v ∷ vs) = as_str v

abbrev pub name_or_unknown : Option Text → Text
name_or_unknown none = ascii "unknown"
name_or_unknown (some name) = name

-- `_source` and `_index` of the document as JSON, if it is any.
unfoldable pub source_and_index : Option Value → Value × Text
source_and_index none = (null, ascii "unknown")
source_and_index (some parsed) = (
  source_value (get parsed (ascii "_source")),
  name_or_unknown (and_then (and_then (get parsed (ascii "_index")) as_array) first_text),
)
