-- ===== src/Startup/Soundness.antt =====
-- The state in which `main` of src/main.rs hands over to the workers.
use edgewit.Prelude.{ℕ, ◌^◌, ◌<◌, ◌≡◌, Bool, true, Option, List, [], ◌∷◌, Text, ascii}
use edgewit.Prelude.Attempts.{returns}
use edgewit.Schema.Definition.{IndexDefinition}
use edgewit.Registry.Store
use edgewit.Registry.Loading.{DirPath, load_from_dir}
use edgewit.Registry.Consistency.{IsConsistent}
use edgewit.Indexer.Engine.{Engine}
use edgewit.Indexer.Manager.{IndexManager}
use edgewit.Indexer.Manager
use edgewit.Indexer.Actor
use edgewit.Indexer.Readiness.{IsReady}
use edgewit.Retention.Size.{from_env}
use edgewit.Compaction
use edgewit.Startup.Reading.{AreRead}
use edgewit.Startup.{settings, Program}

module _ (lib : Engine) (var : Text → Option Text) (build_pool channel : ℕ → Bool)
    (from_yaml : List ℕ → Option IndexDefinition) (indexes_dir : DirPath) (world : lib.World) where
  -- The settings are those of the environment or their defaults, the thread pool and the channels
  -- take their sizes, and the definitions could be loaded. The registry has what was loaded, one
  -- valid definition for each name; the index manager has that registry, the indexer that manager,
  -- and no writer waits for a commit; the log is continued at 0.
  pub record IsSound (p : Program lib) : Type 0 where
    pub settings : AreRead var p.settings_read
    pub port : p.settings_read.port < 2 ^ 16
    pub pool : build_pool p.settings_read.search_threads ≡ true
    pub channel_size : channel p.settings_read.channel_buffer ≡ true
    pub count : ℕ
    pub loaded : load_from_dir from_yaml indexes_dir Store.new ≡ (returns count, p.registry)
    pub registry : IsConsistent p.registry
    pub manager :
        p.index_manager
        ≡ Manager.new lib
            (p.settings_read.data_dir ∷ [])
            p.registry
            p.settings_read.docstore_cache_blocks
    pub actor : p.indexer ≡ Actor.new lib p.index_manager p.settings_read.index_memory_mb world
    pub indexer : IsReady lib p.indexer
    pub offset : p.wal_offset ≡ 0
    pub retention :
        p.retention_config
        ≡ from_env (var (ascii "EDGEWIT_MAX_INDEX_BYTES")) (var (ascii "EDGEWIT_MAX_WAL_BYTES"))
    pub compaction : p.compaction ≡ Compaction.new var (p.settings_read.data_dir ∷ [])
