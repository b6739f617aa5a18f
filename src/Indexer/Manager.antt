-- ===== src/Indexer/Manager.antt =====
-- `IndexManager` of src/index_manager.rs.
use edgewit.Prelude.{
  ℕ, Bool, false, Option, none, some, List, [], ◌∷◌, ◌++◌, Text, Assoc, ascii, lookup, insert,
  if◌then◌else◌, Result, ok, err,
}
use edgewit.Registry.Store.{IndexRegistry, get}
use edgewit.Schema.Definition.{IndexDefinition}
use edgewit.Schema.Builder.{build_schema}
use edgewit.Indexer.Engine.{Engine}

module _ (lib : Engine) where
  -- The two caches with their locks, which are poisoned when a holder panics.
  pub record IndexManager : Type 0 where
    pub base_dir : List Text
    pub registry : IndexRegistry
    pub indexes : Assoc lib.Index
    pub indexes_poisoned : Bool
    pub readers : Assoc lib.Reader
    pub readers_poisoned : Bool
    pub docstore_cache_blocks : ℕ

  unfoldable pub new : List Text → IndexRegistry → ℕ → IndexManager
  new base_dir registry docstore_cache_blocks = record {
    base_dir = base_dir;
    registry = registry;
    indexes = [];
    indexes_poisoned = false;
    readers = [];
    readers_poisoned = false;
    docstore_cache_blocks = docstore_cache_blocks;
  }

  -- The path as the segments that are joined to the base directory.
  unfoldable pub index_path : IndexManager → Text → List Text
  index_path self index_name = self.base_dir ++ (ascii "indexes" ∷ index_name ∷ [])

  abbrev pub not_found : Text
  not_found = ascii "Index definition not found"

  -- `if let Ok(cache) = lock.read() && let Some(x) = cache.get(name)`
  abbrev pub cached : {A : Type 0} → Bool → Assoc A → Text → Option A
  cached poisoned cache name = if poisoned then none else lookup name cache

  -- `if let Ok(mut cache) = lock.write() { cache.insert(name, x) }`
  abbrev pub store : {A : Type 0} → Bool → Text → A → Assoc A → Assoc A
  store poisoned name x cache = if poisoned then cache else insert name x cache

  abbrev pub Managed : Type 0 → Type 0
  Managed A = Result Text A × (IndexManager × lib.World)

  abbrev pub keep_index :
      Text → IndexManager → Result Text lib.Index × lib.World → Managed lib.Index
  keep_index index_name self (ok index, world) = (
    ok index,
    (record self { indexes = store self.indexes_poisoned index_name index self.indexes }, world),
  )
  keep_index index_name self (err e, world) = (err e, (self, world))

  abbrev pub open_defined :
      Text → IndexManager → lib.World → Option IndexDefinition → Managed lib.Index
  open_defined index_name self world none = (err not_found, (self, world))
  open_defined index_name self world (some def) =
      keep_index index_name self
        (lib.open_or_create (index_path self index_name) (build_schema def) world)

  abbrev pub cached_or_open : Text → IndexManager → lib.World → Option lib.Index → Managed lib.Index
  cached_or_open index_name self world (some idx) = (ok idx, (self, world))
  cached_or_open index_name self world none =
      open_defined index_name self world (get self.registry index_name)

  unfoldable pub get_or_create_index : Text → IndexManager → lib.World → Managed lib.Index
  get_or_create_index index_name self world =
      cached_or_open index_name self world (cached self.indexes_poisoned self.indexes index_name)

  abbrev pub keep_reader :
      Text → IndexManager → Result Text lib.Reader × lib.World → Managed lib.Reader
  keep_reader index_name self (ok reader, world) = (
    ok reader,
    (record self { readers = store self.readers_poisoned index_name reader self.readers }, world),
  )
  keep_reader index_name self (err e, world) = (err e, (self, world))

  abbrev pub read_index : Text → Managed lib.Index → Managed lib.Reader
  read_index index_name (ok index, (self, world)) =
      keep_reader index_name self (lib.build_reader index self.docstore_cache_blocks world)
  read_index index_name (err e, (self, world)) = (err e, (self, world))

  abbrev pub cached_or_build :
      Text → IndexManager → lib.World → Option lib.Reader → Managed lib.Reader
  cached_or_build index_name self world (some r) = (ok r, (self, world))
  cached_or_build index_name self world none =
      read_index index_name (get_or_create_index index_name self world)

  unfoldable pub get_reader : Text → IndexManager → lib.World → Managed lib.Reader
  get_reader index_name self world =
      cached_or_build index_name self world (cached self.readers_poisoned self.readers index_name)
