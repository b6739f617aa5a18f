-- ===== src/Indexer/Document.antt =====
-- The document that `IndexerActor::process_event` of src/indexer.rs makes of an event.
use edgewit.Prelude.{
  ◌&&◌, not, Option, none, some, List, [], ◌∷◌, ◌++◌, Text, Assoc, ascii, insert, contains_key,
  if◌then◌else◌,
}
use edgewit.Json.{Value, null, bool, number, string, array, object, is_null}
use edgewit.Schema.Definition.{IndexDefinition, SchemaMode, dynamic}
use edgewit.Indexer.Engine.{Engine}

abbrev one : Option Text → List Text
one none = []
one (some s) = s ∷ []

-- `parts.join(separator)`
unfoldable pub join : Text → List Text → Text
join separator [] = []
join separator (part ∷ []) = part
join separator (part ∷ next ∷ parts) = part ++ (separator ++ join separator (next ∷ parts))

module _ (lib : Engine) where
  -- What an unmapped value adds to the parts.
  unfoldable pub dynamic_part : Value → List Text
  dynamic_part (string s) = s ∷ []
  dynamic_part (number n) = one (lib.to_text (number n))
  dynamic_part (bool b) = ascii (if b then "true" else "false") ∷ []
  dynamic_part (array vs) = one (lib.to_text (array vs))
  dynamic_part (object es) = one (lib.to_text (object es))
  dynamic_part null = []

  -- The loop over the entries, with `root` and `dynamic_parts`.
  unfoldable pub collect :
      IndexDefinition → Assoc Value → Assoc Value → List Text → Assoc Value × List Text
  collect def [] root dynamic_parts = (root, dynamic_parts)
  collect def ((k, v) ∷ map) root dynamic_parts =
      if contains_key k def.fields && not (is_null v)
      then collect def map (insert k v root) dynamic_parts
      else if not (is_null v)
      then collect def map root (dynamic_parts ++ dynamic_part v)
      else collect def map root dynamic_parts

  abbrev pub with_dynamic : SchemaMode → List Text → Assoc Value → Assoc Value
  with_dynamic dynamic (part ∷ parts) root =
      insert (ascii "_dynamic") (string (join (ascii " ") (part ∷ parts))) root
  with_dynamic _ _ root = root

  abbrev pub with_source : SchemaMode → Value → Assoc Value × List Text → Assoc Value
  with_source mode source (root, dynamic_parts) =
      with_dynamic mode dynamic_parts (insert (ascii "_source") source root)

  -- `root`, for the entries `map` of `source`.
  unfoldable pub root_of : IndexDefinition → Value → Assoc Value → Assoc Value
  root_of def source map = with_source def.mode source (collect def map [] [])
