-- ===== src/Api/Managing.antt =====
-- What the handlers of src/api/indexes.rs leave in the registry and on the disk.
use edgewit.Prelude.{
  ℕ, ◌≡◌, inl, inr, refl, Bool, true, false, Bool-cases, Option, none, some, List, Text, lookup,
  if◌then◌else◌, arith, lookup-insert_self, lookup-remove_self,
}
use edgewit.Prelude.Attempts.{Attempt, returns, fails, panics}
use edgewit.Schema.Definition.{IndexDefinition}
use edgewit.Schema.Validation.{ValidationError, validate_schema}
use edgewit.Registry.Store.{
  RegistryError, already_exists, not_found, validation_error, io_error, lock_error, IndexRegistry,
  upsert, remove, removed, validated, locked, put,
}
use edgewit.Api.Indexes.{
  Directory, AppState, Disk, WriteOutcome, complete, not_opened, torn, status, file_name, renamed,
  written, serialized, persisted, upserted, create_index_handler, deleted, delete_index_handler,
}

-- The definition is in the registry and its text in its file.
pub record IsStored (yaml : Option (List ℕ)) (index : Text) (d : IndexDefinition) (s : AppState)
    : Type 0 where
  pub content : List ℕ
  pub made : yaml ≡ some content
  pub in_file : lookup (file_name index) s.indexes_dir.files ≡ some content
  pub in_registry : lookup index s.registry.indexes ≡ some d

written-IsStored :
    (o : WriteOutcome) (index : Text) (d : IndexDefinition) (content : List ℕ) (s : AppState)
    → lookup index s.registry.indexes ≡ some d
    → (written o index content s).0 ≡ status 200
    → IsStored (some content) index d (written o index content s).1
written-IsStored complete index d content s r h = record {
  content = content;
  made = refl;
  in_file = lookup-insert_self (file_name index) content s.indexes_dir.files;
  in_registry = r;
}
written-IsStored not_opened index d content s r h = ground arith
written-IsStored (torn k) index d content s r h = ground arith

persisted-IsStored :
    (disk : Disk) (index : Text) (d : IndexDefinition) (yaml : Option (List ℕ)) (s : AppState)
    → lookup index s.registry.indexes ≡ some d
    → (persisted disk index yaml s).0 ≡ status 200
    → IsStored yaml index d (persisted disk index yaml s).1
persisted-IsStored disk index d yaml s r h = elim (Bool-cases disk.create_dir_all) [
  | inl y ↦ rw y (by_yaml yaml (rw y at h))
  | inr n ↦ let no : status 500 ≡ status 200 = (rw n at h) in absurd (statuses_differ no)
]
  where
    statuses_differ : status 500 ≡ status 200 → ⊥
    statuses_differ e = ground arith

    by_yaml :
        (y : Option (List ℕ))
        → (serialized disk index y s).0 ≡ status 200
        → IsStored y index d (serialized disk index y s).1
    by_yaml none q = absurd (statuses_differ q)
    by_yaml (some content) q = written-IsStored disk.write index d content s r q

not_returned :
    (e : RegistryError) (p : Attempt RegistryError (Unit {0})) → p ≡ fails e → p ≡ returns tt → ⊥
not_returned e p f q = ground arith

-- What an upsert that succeeds puts into the registry.
upsert-lookup :
    (d : IndexDefinition) (reg : IndexRegistry)
    → (upsert d reg).0 ≡ returns tt
    → lookup d.name (upsert d reg).1.indexes ≡ some d
unfolding upsert
upsert-lookup d reg h = by_validation (validate_schema d) h
  where
    by_lock :
        (locked (put d) reg).0 ≡ returns tt → lookup d.name (locked (put d) reg).1.indexes ≡ some d
    by_lock q = elim (Bool-cases reg.poisoned) [
      | inl y ↦ absurd (not_returned lock_error (locked (put d) reg).0 (rw y refl) q)
      | inr n ↦ rw n (lookup-insert_self d.name d reg.indexes)
    ]

    by_validation :
        (v : Attempt ValidationError (Unit {0}))
        → (validated v (locked (put d)) reg).0 ≡ returns tt
        → lookup d.name (validated v (locked (put d)) reg).1.indexes ≡ some d
    by_validation (returns u) q = by_lock q
    by_validation (fails e) q = ground arith
    by_validation panics q = ground arith

upserted-IsStored :
    (disk : Disk) (index : Text) (d : IndexDefinition) (yaml : Option (List ℕ)) (dir : Directory)
    (p : Attempt RegistryError (Unit {0}) × IndexRegistry)
    → (p.0 ≡ returns tt → lookup index p.1.indexes ≡ some d)
    → (upserted disk index yaml dir p).0 ≡ status 200
    → IsStored yaml index d (upserted disk index yaml dir p).1
upserted-IsStored disk index d yaml dir (returns u, reg) k h =
    persisted-IsStored disk index d yaml (record { registry = reg; indexes_dir = dir }) (k refl) h
upserted-IsStored disk index d yaml dir (fails (validation_error e), reg) k h = ground arith
upserted-IsStored disk index d yaml dir (fails (already_exists n), reg) k h = ground arith
upserted-IsStored disk index d yaml dir (fails (not_found n), reg) k h = ground arith
upserted-IsStored disk index d yaml dir (fails io_error, reg) k h = ground arith
upserted-IsStored disk index d yaml dir (fails lock_error, reg) k h = ground arith
upserted-IsStored disk index d yaml dir (panics, reg) k h = ground arith

-- If the handler that creates an index answers 200, then the definition under the name of the path
-- is in the registry, it has a text, and that text is the content of its file.
pub create_index_handler-IsStored :
    (to_yaml : IndexDefinition → Option (List ℕ)) (enabled : Bool) (disk : Disk) (index : Text)
    (payload : IndexDefinition) (s : AppState)
    → (create_index_handler to_yaml enabled disk index payload s).0 ≡ status 200
    → IsStored
        (to_yaml (renamed index payload))
        index
        (renamed index payload)
        (create_index_handler to_yaml enabled disk index payload s).1
unfolding create_index_handler
create_index_handler-IsStored to_yaml false disk index payload s h = ground arith
create_index_handler-IsStored to_yaml true disk index payload s h =
    upserted-IsStored disk index (renamed index payload) (to_yaml (renamed index payload))
      s.indexes_dir (upsert (renamed index payload) s.registry)
      (upsert-lookup (renamed index payload) s.registry) h

-- The definition is gone from the registry, and its file and data from the disk where they can be
-- removed.
pub record IsWiped (disk : Disk) (index : Text) (s : AppState) : Type 0 where
  pub in_registry : lookup index s.registry.indexes ≡ none
  pub in_file : disk.remove_file ≡ true → lookup (file_name index) s.indexes_dir.files ≡ none
  pub in_data : disk.remove_dir_all ≡ true → lookup index s.indexes_dir.data_dirs ≡ none

remove-lookup :
    (index : Text) (reg : IndexRegistry) (d : IndexDefinition)
    → (remove index reg).0 ≡ returns d
    → lookup index (remove index reg).1.indexes ≡ none
unfolding remove
remove-lookup index reg d h =
    by_lock reg.poisoned (removed index reg (lookup index reg.indexes))
      (by_entry (lookup index reg.indexes)) h
  where
    by_lock :
        (b : Bool) (p : Attempt RegistryError IndexDefinition × IndexRegistry)
        → (p.0 ≡ returns d → lookup index p.1.indexes ≡ none)
        → (if b then (fails lock_error, reg) else p).0 ≡ returns d
        → lookup index (if b then (fails lock_error, reg) else p).1.indexes ≡ none
    by_lock true p k q = ground arith
    by_lock false p k q = k q

    by_entry :
        (o : Option IndexDefinition)
        → (removed index reg o).0 ≡ returns d
        → lookup index (removed index reg o).1.indexes ≡ none
    by_entry none q = ground arith
    by_entry (some x) q = lookup-remove_self index reg.indexes

deleted-IsWiped :
    (disk : Disk) (index : Text) (dir : Directory)
    (p : Attempt RegistryError IndexDefinition × IndexRegistry)
    → ((d : IndexDefinition) → p.0 ≡ returns d → lookup index p.1.indexes ≡ none)
    → (deleted disk index dir p).0 ≡ status 200
    → IsWiped disk index (deleted disk index dir p).1
deleted-IsWiped disk index dir (returns d, reg) k h = record {
  in_registry = k d refl;
  in_file = λ r. rw r (lookup-remove_self (file_name index) dir.files);
  in_data = λ r. rw r (lookup-remove_self index dir.data_dirs);
}
deleted-IsWiped disk index dir (fails (validation_error e), reg) k h = ground arith
deleted-IsWiped disk index dir (fails (already_exists n), reg) k h = ground arith
deleted-IsWiped disk index dir (fails (not_found n), reg) k h = ground arith
deleted-IsWiped disk index dir (fails io_error, reg) k h = ground arith
deleted-IsWiped disk index dir (fails lock_error, reg) k h = ground arith
deleted-IsWiped disk index dir (panics, reg) k h = ground arith

-- If the handler that deletes an index answers 200, then its definition is not in the registry any
-- more, and its file and its data are gone where the disk lets them be removed.
pub delete_index_handler-IsWiped :
    (enabled : Bool) (disk : Disk) (index : Text) (s : AppState)
    → (delete_index_handler enabled disk index s).0 ≡ status 200
    → IsWiped disk index (delete_index_handler enabled disk index s).1
unfolding delete_index_handler
delete_index_handler-IsWiped false disk index s h = ground arith
delete_index_handler-IsWiped true disk index s h =
    deleted-IsWiped disk index s.indexes_dir (remove index s.registry)
      (remove-lookup index s.registry) h
