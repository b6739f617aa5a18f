-- ===== src/Indexer/Marks.antt =====
-- What `process_event` and `purge_old_docs` of src/indexer.rs leave to be committed.
use edgewit.Prelude.{ℕ, Option, none, some, Text, Assoc, ascii, lookup, insert}
use edgewit.Prelude.Numbers.{ℤ}
use edgewit.Prelude.States.{lift, require}
use edgewit.Json.{Value}
use edgewit.Schema.Definition.{IndexDefinition}
use edgewit.Registry.Store.{get}
use edgewit.Wal.Frame.{IngestEvent}
use edgewit.Indexer.Engine.{Engine}
use edgewit.Indexer.Document.{root_of}
use edgewit.Indexer.Actor.{
  calls, get_index, definition_of, as_entries, add, add_to, index_document, process_event,
}
use edgewit.Indexer.Loop.{declared_timestamp, writer_of, or_insert, delete_old, purge_old_docs}
use edgewit.Indexer.Growth.{
  Grows-refl, Extends, calls-Extends, get_index-Extends, lift-Extends, require-Extends, Marks,
  bind-Marks, bind-MarksReady, ensure_writer-Marks, change-MarksReady,
}

module _ (lib : Engine) where
  definition_of-Extends : (name : Text) → Extends lib (definition_of lib name)
  definition_of-Extends name s =
      require-Extends lib (ascii "Unknown index") (get s.manager.registry name) s

  add_to-Extends : (doc : lib.Document) (w : Option lib.Writer) → Extends lib (add_to lib doc w)
  add_to-Extends doc none s = Grows-refl lib s
  add_to-Extends doc (some w) s = Grows-refl lib s

  add-Extends : (name : Text) (doc : lib.Document) → Extends lib (add lib name doc)
  add-Extends name doc s = add_to-Extends doc (lookup name s.writers) s

  writer_of-Extends : (name : Text) → Extends lib (writer_of lib name)
  writer_of-Extends name s = require-Extends lib (ascii "unwrap") (lookup name s.writers) s

  index_document-Marks :
      (event : IngestEvent) (offset : ℕ) (source : Value) (def : IndexDefinition)
      (map : Assoc Value)
      → Marks lib event.index
          (insert event.index offset)
          (index_document lib event offset source def map)
  index_document-Marks event offset source def map =
      let name = event.index in
      let f : Assoc ℕ → Assoc ℕ = insert event.index offset in
      ensure_writer-Marks lib name f _ (
        bind-MarksReady lib name f (get_index lib name) _ (get_index-Extends lib name) (λ index.
          bind-MarksReady lib name f (lift (lib.parse_json index (root_of lib def source map))) _
            (lift-Extends lib (lib.parse_json index (root_of lib def source map)))
            (λ doc.
              bind-MarksReady lib name f (add lib name doc) _ (add-Extends name doc)
                (λ _. change-MarksReady lib name f))))

  -- An event that is indexed makes its offset the one to commit for its index, which has a writer
  -- then, and changes nothing else of what is to be committed; an event that is refused leaves
  -- that as it was. No writer is lost.
  pub process_event-Marks :
      (event : IngestEvent) (offset : ℕ)
      → Marks lib event.index (insert event.index offset) (process_event lib event offset)
  unfolding process_event
  process_event-Marks event offset =
      let name = event.index in
      let f : Assoc ℕ → Assoc ℕ = insert event.index offset in
      bind-Marks lib name f (definition_of lib name) _ (definition_of-Extends name) (λ def.
        bind-Marks lib name f (lift (lib.from_slice event.payload)) _
          (lift-Extends lib (lib.from_slice event.payload))
          (λ source.
            bind-Marks lib name f (lift (as_entries lib source)) _
              (lift-Extends lib (as_entries lib source))
              (λ map. index_document-Marks event offset source def map)))

  delete_old-Marks :
      (name : Text) (cutoff : ℤ) (ts : Text)
      → Marks lib name (or_insert lib name 0) (delete_old lib name cutoff ts)
  delete_old-Marks name cutoff ts =
      let f : Assoc ℕ → Assoc ℕ = or_insert lib name 0 in
      ensure_writer-Marks lib name f _ (
        bind-MarksReady lib name f (get_index lib name) _ (get_index-Extends lib name) (λ index.
          bind-MarksReady lib name f
            (require (ascii "Field missing from Tantivy schema") (lib.get_field index ts)) _
            (require-Extends lib (ascii "Field missing from Tantivy schema")
              (lib.get_field index ts))
            (λ field.
              bind-MarksReady lib name f (writer_of lib name) _ (writer_of-Extends name) (λ writer.
                bind-MarksReady lib name f (calls lib (lib.delete_before writer field cutoff)) _
                  (calls-Extends lib (lib.delete_before writer field cutoff))
                  (λ _. change-MarksReady lib name f)))))

  -- A purge that succeeds makes 0 the offset to commit for its index unless an offset is already
  -- pending there, and the index has a writer then; a purge that fails leaves what is to be
  -- committed as it was. No writer is lost.
  pub purge_old_docs-Marks :
      (name : Text) (cutoff : ℤ)
      → Marks lib name (or_insert lib name 0) (purge_old_docs lib name cutoff)
  unfolding purge_old_docs
  purge_old_docs-Marks name cutoff =
      let f : Assoc ℕ → Assoc ℕ = or_insert lib name 0 in
      bind-Marks lib name f (definition_of lib name) _ (definition_of-Extends name) (λ def.
        bind-Marks lib name f
          (lift (declared_timestamp def (lookup def.timestamp_field def.fields))) _
          (lift-Extends lib (declared_timestamp def (lookup def.timestamp_field def.fields)))
          (λ ts. delete_old-Marks name cutoff ts))
