-- ===== src/Startup.antt =====
-- src/main.rs, from the reading of the settings to the state that the workers and the server share.
pub mod Reading
pub mod Soundness
pub mod Tests
use edgewit.Prelude.{
  ℕ, ◌+◌, ◌-◌, ◌^◌, Bool, true, false, Option, none, some, List, [], ◌∷◌, ◌++◌, Text, ascii, Result,
  ok, err, ok_or, if◌then◌else◌, ◌>>=◌,
}
use edgewit.Prelude.Attempts
use edgewit.Prelude.Attempts.{Attempt, returns, fails, panics}
use edgewit.Prelude.Numbers.{parse_unsigned, parse_u64}
use edgewit.Schema.Definition.{IndexDefinition}
use edgewit.Registry.Store
use edgewit.Registry.Store.{RegistryError, IndexRegistry}
use edgewit.Registry.Loading.{DirPath, load_from_dir}
use edgewit.Retention.Size.{RetentionConfig, from_env}
use edgewit.Indexer.Engine.{Engine}
use edgewit.Indexer.Manager
use edgewit.Indexer.Manager.{IndexManager}
use edgewit.Indexer.Actor
use edgewit.Indexer.Actor.{IndexerActor}
use edgewit.Compaction
use edgewit.Compaction.{CompactionWorker}

pub record Settings : Type 0 where
  pub port : ℕ
  pub data_dir : Text
  pub index_memory_mb : ℕ
  pub channel_buffer : ℕ
  pub search_threads : ℕ
  pub docstore_cache_blocks : ℕ

-- `parse::<u16>()`; a `usize` is a `u64`.
unfoldable pub parse_u16 : Text → Option ℕ
parse_u16 s = parse_unsigned 10 (2 ^ 16 - 1) s

abbrev pub unwrap_or : Text → Option Text → Text
unwrap_or d none = d
unwrap_or d (some v) = v

abbrev pub usize_message : Text → Text
usize_message name = name ++ ascii " must be a valid usize"

-- `env::var(name).unwrap_or_else(default).parse().map_err(message)?`
unfoldable pub number_setting :
    (Text → Option Text) → (Text → Option ℕ) → Text → Text → Text → Result Text ℕ
number_setting var parse name default message = ok_or message (parse (unwrap_or default (var name)))

abbrev pub usize_setting : (Text → Option Text) → Text → Text → Result Text ℕ
usize_setting var name default = number_setting var parse_u64 name default (usize_message name)

unfoldable pub settings : (Text → Option Text) → Result Text Settings
settings var = do
  port ←
      number_setting var parse_u16 (ascii "EDGEWIT_PORT") (ascii "9200")
        (ascii "EDGEWIT_PORT must be a valid u16")
  let data_dir = unwrap_or (ascii "./data") (var (ascii "EDGEWIT_DATA_DIR"))
  index_memory_mb ← usize_setting var (ascii "EDGEWIT_INDEX_MEMORY_MB") (ascii "30")
  channel_buffer ← usize_setting var (ascii "EDGEWIT_CHANNEL_BUFFER") (ascii "10000")
  search_threads ← usize_setting var (ascii "EDGEWIT_SEARCH_THREADS") (ascii "1")
  docstore_cache_blocks ← usize_setting var (ascii "EDGEWIT_DOCSTORE_CACHE_BLOCKS") (ascii "20")
  ok (record {
    port = port;
    data_dir = data_dir;
    index_memory_mb = index_memory_mb;
    channel_buffer = channel_buffer;
    search_threads = search_threads;
    docstore_cache_blocks = docstore_cache_blocks;
  })

-- The boxed error of `main`.
pub data StartError : Type 0 where
  message : Text → StartError
  pool_error : StartError
  registry_error : RegistryError → StartError

module _ (lib : Engine) where
  -- What is handed to the tasks and to the server.
  pub record Program : Type 0 where
    pub settings_read : Settings
    pub registry : IndexRegistry
    pub index_manager : IndexManager lib
    pub indexer : IndexerActor lib
    pub wal_offset : ℕ
    pub retention_config : RetentionConfig
    pub compaction : CompactionWorker

  abbrev pub program : (Text → Option Text) → lib.World → Settings → IndexRegistry → Program
  program var world c reg =
      let manager = Manager.new lib (c.data_dir ∷ []) reg c.docstore_cache_blocks in
      record {
        settings_read = c;
        registry = reg;
        index_manager = manager;
        indexer = Actor.new lib manager c.index_memory_mb world;
        wal_offset = 0;
        retention_config =
            from_env (var (ascii "EDGEWIT_MAX_INDEX_BYTES")) (var (ascii "EDGEWIT_MAX_WAL_BYTES"));
        compaction = Compaction.new var (c.data_dir ∷ []);
      }

  -- `mpsc::channel` panics at a size that it does not take.
  abbrev pub with_channels : Bool → Program → Attempt StartError Program
  with_channels false p = panics
  with_channels true p = returns p

  abbrev pub with_registry :
      (ℕ → Bool)
      → (IndexRegistry → Program)
      → ℕ
      → Attempt RegistryError ℕ × IndexRegistry
      → Attempt StartError Program
  with_registry channel make buffer (returns count, reg) = with_channels (channel buffer) (make reg)
  with_registry channel make buffer (fails e, reg) = fails (registry_error e)
  with_registry channel make buffer (panics, reg) = panics

  -- The global thread pool is built with the number of search threads.
  abbrev pub with_settings :
      (Text → Option Text)
      → (ℕ → Bool)
      → (ℕ → Bool)
      → Attempt RegistryError ℕ × IndexRegistry
      → lib.World
      → Result Text Settings
      → Attempt StartError Program
  with_settings var build_pool channel loaded world (err e) = fails (message e)
  with_settings var build_pool channel loaded world (ok c) =
      if build_pool c.search_threads
      then with_registry channel (program var world c) c.channel_buffer loaded
      else fails pool_error

  unfoldable pub launch :
      (Text → Option Text)
      → (ℕ → Bool)
      → (ℕ → Bool)
      → (List ℕ → Option IndexDefinition)
      → DirPath
      → lib.World
      → Attempt StartError Program
  launch var build_pool channel from_yaml indexes_dir world =
      with_settings var build_pool channel (load_from_dir from_yaml indexes_dir Store.new) world
        (settings var)
