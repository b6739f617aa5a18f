-- ===== src/Api/Persistence.antt =====
-- The definitions that src/api/indexes.rs writes, as `load_from_dir` of src/registry.rs reads them at
-- the next start.
use edgewit.Prelude.{
  ℕ, ◌≡◌, refl, sym, Bool, true, false, Option, some, List, [], ◌∷◌, ◌++◌, Text, ascii, lookup,
  contains_key, insert, starts_with, ends_with, arith, lookup-insert_self,
}
use mathlib.Core.List.{reverse, reverse-append}
use edgewit.Prelude.Attempts.{Attempt, returns, fails, panics}
use edgewit.Schema.Definition.{IndexDefinition}
use edgewit.Schema.Validation.{ValidationError, validate_schema}
use edgewit.Registry.Store.{
  RegistryError, already_exists, not_found, validation_error, io_error, lock_error, IndexRegistry,
  new, upsert, register, validated, locked, put, get,
}
use edgewit.Registry.Loading.{
  DirEntry, directory, load_from_dir, load_entries, is_definition, from_file,
}
use edgewit.Api.Indexes.{
  Directory, AppState, Disk, status, file_name, renamed, upserted, create_index_handler,
}
use edgewit.Api.Managing.{create_index_handler-IsStored}

-- A definition that an upsert takes is valid.
upsert-valid :
    (d : IndexDefinition) (reg : IndexRegistry)
    → (upsert d reg).0 ≡ returns tt
    → validate_schema d ≡ returns tt
unfolding upsert
upsert-valid d reg h = by_validation (validate_schema d) h
  where
    by_validation :
        (v : Attempt ValidationError (Unit {0}))
        → (validated v (locked (put d)) reg).0 ≡ returns tt
        → v ≡ returns tt
    by_validation (returns tt) q = refl
    by_validation (fails e) q = ground arith
    by_validation panics q = ground arith

upserted-valid :
    (disk : Disk) (index : Text) (d : IndexDefinition) (yaml : Option (List ℕ)) (dir : Directory)
    (p : Attempt RegistryError (Unit {0}) × IndexRegistry)
    → (p.0 ≡ returns tt → validate_schema d ≡ returns tt)
    → (upserted disk index yaml dir p).0 ≡ status 200
    → validate_schema d ≡ returns tt
upserted-valid disk index d yaml dir (returns tt, reg) k h = k refl
upserted-valid disk index d yaml dir (fails (validation_error e), reg) k h = ground arith
upserted-valid disk index d yaml dir (fails (already_exists n), reg) k h = ground arith
upserted-valid disk index d yaml dir (fails (not_found n), reg) k h = ground arith
upserted-valid disk index d yaml dir (fails io_error, reg) k h = ground arith
upserted-valid disk index d yaml dir (fails lock_error, reg) k h = ground arith
upserted-valid disk index d yaml dir (panics, reg) k h = ground arith

create_index_handler-valid :
    (to_yaml : IndexDefinition → Option (List ℕ)) (enabled : Bool) (disk : Disk) (index : Text)
    (payload : IndexDefinition) (s : AppState)
    → (create_index_handler to_yaml enabled disk index payload s).0 ≡ status 200
    → validate_schema (renamed index payload) ≡ returns tt
unfolding create_index_handler
create_index_handler-valid to_yaml false disk index payload s h = ground arith
create_index_handler-valid to_yaml true disk index payload s h =
    upserted-valid disk index (renamed index payload) (to_yaml (renamed index payload))
      s.indexes_dir (upsert (renamed index payload) s.registry)
      (upsert-valid (renamed index payload) s.registry) h

-- The entry of the directory for the file of an index.
abbrev pub entry_of : Text → Option (List ℕ) → DirEntry
entry_of index content = record { name = some (file_name index); is_file = true; content = content }

starts_with-append : (s t : Text) → starts_with (s ++ t) s ≡ true
unfolding starts_with
starts_with-append [] t = refl
starts_with-append (c ∷ s) t = rw (starts_with-append s t) (ground arith)

ends_with-append : (s t : Text) → ends_with (s ++ t) t ≡ true
unfolding ends_with
ends_with-append s t = rw (reverse-append s t) (starts_with-append (reverse t) (reverse s))

file_is_named : (index : Text) → ends_with (file_name index) (ascii ".index.yaml") ≡ true
file_is_named index = ends_with-append index (ascii ".index.yaml")

registered :
    (d : IndexDefinition)
    → validate_schema d ≡ returns tt
    → register d new ≡ (returns tt, record { indexes = insert d.name d []; poisoned = false })
unfolding register new contains_key
registered d v = rw v refl

got :
    (d : IndexDefinition)
    → get (record { indexes = insert d.name d []; poisoned = false }) d.name ≡ some d
unfolding get
got d = lookup-insert_self d.name d []

module _ (from_yaml : List ℕ → Option IndexDefinition) where
  file_is_read :
      (d : IndexDefinition) (content : List ℕ) (index : Text)
      → validate_schema d ≡ returns tt
      → from_yaml content ≡ some d
      → from_file from_yaml (entry_of index (some content)) ≡ returns d
  unfolding from_file
  file_is_read d content index v y = rw (y, v) refl

  load_one :
      (index : Text) (d : IndexDefinition) (content : List ℕ)
      → d.name ≡ index
      → validate_schema d ≡ returns tt
      → from_yaml content ≡ some d
      → get
          (load_from_dir from_yaml (directory (some (entry_of index (some content)) ∷ [])) new).1
          index
        ≡ some d
  unfolding load_from_dir load_entries is_definition
  load_one index d content n v y =
      rw (file_is_named index, file_is_read d content index v y, registered d v)
        (rw (sym n) (got d))

  -- If the handler that creates an index answers 200, and the text of the definition is read back
  -- as that definition, then loading the file that was written into a new registry registers the
  -- definition under its name.
  pub create_index_handler_persists :
      (to_yaml : IndexDefinition → Option (List ℕ)) (enabled : Bool) (disk : Disk) (index : Text)
      (payload : IndexDefinition) (s : AppState)
      → ((c : List ℕ)
          → to_yaml (renamed index payload) ≡ some c
          → from_yaml c ≡ some (renamed index payload))
      → (create_index_handler to_yaml enabled disk index payload s).0 ≡ status 200
      → let s' : AppState = (create_index_handler to_yaml enabled disk index payload s).1 in
        get
          (load_from_dir from_yaml
            (directory (some (entry_of index (lookup (file_name index) s'.indexes_dir.files)) ∷ []))
            new).1
          index
        ≡ some (renamed index payload)
  create_index_handler_persists to_yaml enabled disk index payload s y h =
      let stored = create_index_handler-IsStored to_yaml enabled disk index payload s h in
      rw stored.in_file (
        load_one index (renamed index payload) stored.content refl
          (create_index_handler-valid to_yaml enabled disk index payload s h)
          (y stored.content stored.made))
