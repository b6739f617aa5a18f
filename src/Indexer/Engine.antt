-- ===== src/Indexer/Engine.antt =====
-- The search library and the other outside code that src/index_manager.rs and src/indexer.rs call.
use edgewit.Prelude.{ℕ, Option, List, Text, Assoc, Result}
use edgewit.Prelude.Numbers.{ℤ}
use edgewit.Json.{Value}
use edgewit.Schema.Builder.{AddField}

-- Every call that has an effect takes the world and returns it: the disk, the library's own memory.
pub record Engine : Type 1 where
  pub World : Type 0
  pub Index : Type 0
  pub Reader : Type 0
  pub Writer : Type 0
  pub Document : Type 0
  pub Field : Type 0
  -- `create_dir_all`, `MmapDirectory::open` and `Index::open_or_create`, on the path of an index
  pub open_or_create : List Text → List AddField → World → Result Text Index × World
  -- `reader_builder` and its `try_into`, with the number of cached blocks
  pub build_reader : Index → ℕ → World → Result Text Reader × World
  -- `index.writer(budget)` and `set_merge_policy`, with the least number of segments
  pub make_writer : Index → ℕ → ℕ → World → Result Text Writer × World
  pub get_field : Index → Text → Option Field
  pub add_document : Writer → Document → World → Result Text (Unit {0}) × World
  -- `delete_query` of the range up to a time, in seconds
  pub delete_before : Writer → Field → ℤ → World → Result Text (Unit {0}) × World
  -- `prepare_commit`, `set_payload` and `commit`
  pub commit : Writer → ℕ → World → Result Text (Unit {0}) × World
  -- `serde_json`: bytes to a value, a value to text, and an object to a document of an index
  pub from_slice : List ℕ → Result Text Value
  pub to_text : Value → Option Text
  pub parse_json : Index → Assoc Value → Result Text Document
  -- the environment's variables
  pub var : Text → Option Text
