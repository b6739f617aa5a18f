-- ===== src/Api/Cluster.antt =====
-- src/api/cluster.rs: the handlers that tell of the node and its indexes.
pub mod Counts
pub mod Tests
use edgewit.Prelude.{
  ℕ, ◌+◌, Bool, true, false, Option, none, some, List, [], ◌∷◌, ◌++◌, Text, ascii, Result, ok, err,
}
use edgewit.Prelude.Decimal.{decimal}
use edgewit.Json.{Value, string, bool, object, entry, no_entries}
use edgewit.Schema.Definition.{IndexDefinition}
use edgewit.Registry.Store.{list}
use edgewit.Retention.Size.{Nodes, dir_size}
use edgewit.Wal.Frame.{add64}
use edgewit.Indexer.Engine.{Engine}
use edgewit.Indexer.Manager.{IndexManager, Managed, get_reader}
use edgewit.Api.Searching.{Searching}
use edgewit.Api.Hits.{ShardsInfo}

pub record HealthResponse : Type 0 where
  pub cluster_name : Text
  pub status : Text
  pub timed_out : Bool
  pub number_of_nodes : ℕ
  pub active_primary_shards : ℕ
  pub active_shards : ℕ

pub record DocsStats : Type 0 where
  pub count : ℕ
  pub deleted : ℕ

pub record StoreStats : Type 0 where
  pub size_in_bytes : ℕ

pub record IndexStats : Type 0 where
  pub docs : DocsStats
  pub store : StoreStats

pub record IndicesStats : Type 0 where
  pub primaries : IndexStats
  pub total : IndexStats

pub record StatsResponse : Type 0 where
  pub _shards : ShardsInfo
  pub _all : IndicesStats

pub record CatIndex : Type 0 where
  pub health : Text
  pub status : Text
  pub index : Text
  pub uuid : Text
  pub pri : Text
  pub rep : Text
  pub docs_count : Text
  pub docs_deleted : Text
  pub store_size : Text
  pub pri_store_size : Text

pub record VersionResponse : Type 0 where
  pub version : Text
  pub commit : Text
  pub build : Text

-- The three values are those of the build.
unfoldable pub version_handler : Text → Text → Text → VersionResponse
version_handler version commit build = record { version = version; commit = commit; build = build }

abbrev text : Text → Value
text = string

unfoldable pub root_handler : Value
root_handler = object (
    entry (ascii "name") (text (ascii "edgewit-node-1")) (
      entry (ascii "cluster_name") (text (ascii "edgewit")) (
        entry (ascii "version")
          (object (
            entry (ascii "distribution") (text (ascii "opensearch")) (
              entry (ascii "number") (text (ascii "2.11.0")) (
                entry (ascii "build_hash") (text (ascii "unknown")) (
                  entry (ascii "build_date") (text (ascii "2023-10-01T00:00:00Z")) (
                    entry (ascii "build_snapshot") (bool false) (
                      entry (ascii "lucene_version") (text (ascii "9.7.0")) (
                        entry (ascii "minimum_wire_compatibility_version") (text (ascii "7.10.0")) (
                          entry (ascii "minimum_index_compatibility_version") (text (ascii "7.0.0"))
                            (entry (ascii "build_type") (text (ascii "binary")) no_entries))))))))))
          (entry (ascii "tagline") (text (ascii "The OpenSearch Project: https://opensearch.org/"))
            no_entries))))

unfoldable pub health_handler : HealthResponse
health_handler = record {
  cluster_name = ascii "edgewit";
  status = ascii "green";
  timed_out = false;
  number_of_nodes = 1;
  active_primary_shards = 0;
  active_shards = 0;
}

abbrev pub cat_index : Text → Text → Text → CatIndex
cat_index index docs_count store_size = record {
  health = ascii "green";
  status = ascii "open";
  index = index;
  uuid = ascii "unknown";
  pri = ascii "1";
  rep = ascii "0";
  docs_count = docs_count;
  docs_deleted = ascii "0";
  store_size = store_size;
  pri_store_size = store_size;
}

-- The row that stands in for no index.
abbrev pub placeholder : CatIndex
placeholder = cat_index (ascii "edgewit") (ascii "0") (ascii "0b")

-- The sums wrap in the release profile.
pub record Sums : Type 0 where
  pub num_docs : ℕ
  pub num_segments : ℕ
  pub total_size : ℕ

module _ (lib : Engine) (s : Searching lib) where
  abbrev pub State : Type 0
  State = IndexManager lib × lib.World

  -- What a reader shows after `reload`, whose error is only logged; nothing if there is no reader.
  abbrev pub reloaded : Managed lib lib.Reader → Option s.Searcher × State
  reloaded (ok reader, (manager, world)) =
      let after = (s.reload reader world).1 in (some (s.searcher reader after), (manager, after))
  reloaded (err e, (manager, world)) = (none, (manager, world))

  unfoldable pub look_at : Text → State → Option s.Searcher × State
  look_at name (manager, world) = reloaded (get_reader lib name manager world)

  abbrev pub docs_in : Option s.Searcher → ℕ
  docs_in none = 0
  docs_in (some searcher) = s.num_docs searcher

  abbrev pub segments_in : Option s.Searcher → ℕ
  segments_in none = 0
  segments_in (some searcher) = s.num_segments searcher

  abbrev pub add_index : ℕ → Option s.Searcher → Sums → Sums
  add_index size seen t = record {
    num_docs = add64 t.num_docs (docs_in seen);
    num_segments = add64 t.num_segments (segments_in seen);
    total_size = add64 t.total_size size;
  }

  -- `disk` is what `read_dir` shows of the directory of an index at that time.
  module _ (disk : Text → lib.World → Option Nodes) where
    abbrev pub size_at : Text → State → ℕ
    size_at name (manager, world) = dir_size (disk name world)

    unfoldable pub sum_up : List IndexDefinition → Sums → State → Sums × State
    sum_up [] t state = (t, state)
    sum_up (def ∷ defs) t state =
        let size = size_at def.name state in
        let (seen, state') = look_at def.name state in sum_up defs (add_index size seen t) state'

    abbrev pub index_stats : Sums → IndexStats
    index_stats t = record {
      docs = record { count = t.num_docs; deleted = 0 };
      store = record { size_in_bytes = t.total_size };
    }

    abbrev pub stats_of : Sums → StatsResponse
    stats_of t = record {
      _shards = record { total = 0; successful = 0; skipped = 0; failed = 0 };
      _all = record { primaries = index_stats t; total = index_stats t };
    }

    -- The two gauges are set to the sums.
    unfoldable pub stats_handler : State → StatsResponse × State
    stats_handler (manager, world) =
        let (t, state) =
          sum_up (list manager.registry) (record { num_docs = 0; num_segments = 0; total_size = 0 })
            (manager, world) in
        (stats_of t, state)

    abbrev pub cat_row : Text → Option s.Searcher → ℕ → CatIndex
    cat_row name seen size = cat_index name (decimal (docs_in seen)) (decimal size ++ ascii "b")

    unfoldable pub cat_rows : List IndexDefinition → State → List CatIndex × State
    cat_rows [] state = ([], state)
    cat_rows (def ∷ defs) state =
        let (seen, state') = look_at def.name state in
        let size = size_at def.name state' in
        let (rows, state'') = cat_rows defs state' in (cat_row def.name seen size ∷ rows, state'')

    abbrev pub cat_registered : List IndexDefinition → State → List CatIndex × State
    cat_registered [] state = (placeholder ∷ [], state)
    cat_registered (def ∷ defs) state = cat_rows (def ∷ defs) state

    unfoldable pub cat_indexes_handler : State → List CatIndex × State
    cat_indexes_handler (manager, world) = cat_registered (list manager.registry) (manager, world)
