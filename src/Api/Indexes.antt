-- ===== src/Api/Indexes.antt =====
-- The handlers of src/api/indexes.rs.
use edgewit.Prelude.{
  ℕ, Bool, true, Option, none, some, List, ◌++◌, Text, Assoc, ascii, insert, remove as remove_key,
  text_eq, take, if◌then◌else◌,
}
use edgewit.Prelude.Attempts.{Attempt, returns, fails, panics}
use edgewit.Schema.Definition.{IndexDefinition}
use edgewit.Registry.Store.{
  RegistryError, not_found, validation_error, IndexRegistry, upsert, remove, get, list,
}

-- `env::var(..).unwrap_or("true").to_lowercase() == "true"`; `to_lowercase` is that of ASCII.
unfoldable pub is_management_enabled : (Text → Text) → Option Text → Bool
is_management_enabled to_lowercase none = true
is_management_enabled to_lowercase (some v) = text_eq (to_lowercase v) (ascii "true")

-- The directory `indexes`: its files, and the data directories of indexes.
pub record Directory : Type 0 where
  pub files : Assoc (List ℕ)
  pub data_dirs : Assoc (Unit {0})

-- The registry and the directory; a panic ends the process.
pub record AppState : Type 0 where
  pub registry : IndexRegistry
  pub indexes_dir : Directory

-- How `fs::write` ends: it cannot open the file, or fails after some bytes.
pub data WriteOutcome : Type 0 where
  complete not_opened : WriteOutcome
  torn : ℕ → WriteOutcome

-- Whether the calls on the disk succeed.
pub record Disk : Type 0 where
  pub create_dir_all : Bool
  pub write : WriteOutcome
  pub remove_file : Bool
  pub remove_dir_all : Bool

-- The status of an answer, or the end of the process.
pub data Reply : Type 0 where
  status : ℕ → Reply
  aborted : Reply

abbrev pub file_name : Text → Text
file_name index = index ++ ascii ".index.yaml"

abbrev pub renamed : Text → IndexDefinition → IndexDefinition
renamed index payload = record payload { name = index }

abbrev pub with_file : Text → List ℕ → AppState → AppState
with_file index content state = record state {
  indexes_dir = record state.indexes_dir {
    files = insert (file_name index) content state.indexes_dir.files;
  };
}

-- `insert` keeps the place of a file that is there and replaces its content.
abbrev pub written : WriteOutcome → Text → List ℕ → AppState → Reply × AppState
written complete index yaml state = (status 200, with_file index yaml state)
written not_opened index yaml state = (status 500, state)
written (torn k) index yaml state = (status 500, with_file index (take k yaml) state)

abbrev pub serialized : Disk → Text → Option (List ℕ) → AppState → Reply × AppState
serialized disk index none state = (status 500, state)
serialized disk index (some yaml) state = written disk.write index yaml state

-- What follows a successful upsert.
abbrev pub persisted : Disk → Text → Option (List ℕ) → AppState → Reply × AppState
persisted disk index yaml state =
    if disk.create_dir_all then serialized disk index yaml state else (status 500, state)

abbrev pub upserted :
    Disk
    → Text
    → Option (List ℕ)
    → Directory
    → Attempt RegistryError (Unit {0}) × IndexRegistry
    → Reply × AppState
upserted disk index yaml dir (returns u, reg) =
    persisted disk index yaml (record { registry = reg; indexes_dir = dir })
upserted disk index yaml dir (fails (validation_error e), reg) =
    (status 400, record { registry = reg; indexes_dir = dir })
upserted disk index yaml dir (fails _, reg) =
    (status 500, record { registry = reg; indexes_dir = dir })
upserted disk index yaml dir (panics, reg) = (aborted, record { registry = reg; indexes_dir = dir })

-- With `serde_yaml::to_string`; `enabled` is `is_management_enabled()`.
unfoldable pub create_index_handler :
    (IndexDefinition → Option (List ℕ))
    → Bool
    → Disk
    → Text
    → IndexDefinition
    → AppState
    → Reply × AppState
create_index_handler to_yaml enabled disk index payload state =
    if enabled
    then upserted disk index (to_yaml (renamed index payload)) state.indexes_dir
        (upsert (renamed index payload) state.registry)
    else (status 403, state)

abbrev pub found : Option IndexDefinition → ℕ × Option IndexDefinition
found (some def) = (200, some def)
found none = (404, none)

unfoldable pub get_index_handler : Text → AppState → ℕ × Option IndexDefinition
get_index_handler index state = found (get state.registry index)

unfoldable pub list_indexes_handler : AppState → ℕ × List IndexDefinition
list_indexes_handler state = (200, list state.registry)

-- A file or a directory that is there is removed, if the call succeeds; an error is only logged.
abbrev pub wiped : Disk → Text → Directory → Directory
wiped disk index dir = record {
  files = if disk.remove_file then remove_key (file_name index) dir.files else dir.files;
  data_dirs = if disk.remove_dir_all then remove_key index dir.data_dirs else dir.data_dirs;
}

abbrev pub deleted :
    Disk
    → Text
    → Directory
    → Attempt RegistryError IndexDefinition × IndexRegistry
    → Reply × AppState
deleted disk index dir (returns d, reg) =
    (status 200, record { registry = reg; indexes_dir = wiped disk index dir })
deleted disk index dir (fails (not_found name), reg) =
    (status 404, record { registry = reg; indexes_dir = dir })
deleted disk index dir (fails _, reg) = (status 500, record { registry = reg; indexes_dir = dir })
deleted disk index dir (panics, reg) = (aborted, record { registry = reg; indexes_dir = dir })

unfoldable pub delete_index_handler : Bool → Disk → Text → AppState → Reply × AppState
delete_index_handler enabled disk index state =
    if enabled
    then deleted disk index state.indexes_dir (remove index state.registry)
    else (status 403, state)
