-- ===== src/Api/Cluster/Tests.antt =====
-- The lists of a node with one index.
use edgewit.Prelude.{◌≡◌, Option, some, [], Text, arith}
use edgewit.Registry.Store.{list}
use edgewit.Retention.Size.{Nodes, Node}
use edgewit.Indexer.Tests.{engine, manager}
use edgewit.Api.Search.Tests.{searching}
use edgewit.Api.Cluster.{stats_handler, cat_indexes_handler}
use edgewit.Api.Cluster.Counts.{Listed, stats_handler-cat_indexes_handler}

abbrev disk : Text → engine.World → Option Nodes
disk name world = some (Nodes.node (Node.file 300) (Nodes.node (Node.file 12) Nodes.end))

stats_handler-cat_indexes_handler_example :
    Listed
      (list manager.registry)
      (cat_indexes_handler engine searching disk (manager, [])).0
      (stats_handler engine searching disk (manager, [])).0._all.total.docs.count
    × ((stats_handler engine searching disk (manager, [])).1
        ≡ (cat_indexes_handler engine searching disk (manager, [])).1)
stats_handler-cat_indexes_handler_example =
    stats_handler-cat_indexes_handler engine searching disk (λ v. omega arith) (manager, [])
