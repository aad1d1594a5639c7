-- ===== src/Convert/Preflight/Ends.antt =====
-- The end of the checks before a migration (sample_app/convert_to_tablets.py, `scylla_version` to
-- `preflight`).
use scylla_k8s_example.Base.{ℕ, String, List, [], ◌∷◌, Option, none, some, Bool}
use scylla_k8s_example.Base.Dict.{Dict}
use scylla_k8s_example.Json.{Json}
use scylla_k8s_example.Exec.{Env}
use scylla_k8s_example.Exec.Halts.{Halts, Halts-pure, Halts-raise, halts_rules}
use scylla_k8s_example.Convert.Api.Ends.{api_ends}
use scylla_k8s_example.Convert.Nodes.{Node}
use scylla_k8s_example.Convert.Preflight.Cluster.{
  scylla_version, counter_migration_supported, rack_list_enforced, transient_nodes, read_cluster,
  texts, report_down, report_count, report_transient, judge, judge_view, Reading, seen, unreadable,
  check_cluster_up,
}
use scylla_k8s_example.Convert.Preflight.Schema.{
  Keyspace, answered, query_replication, report_rf, check_replication, name_line, warn_views,
  check_counters, check_cdc, check_compaction, warn_tombstones, check_tables, check_keyspace,
  preflight,
}

module _ {e : Env} where
  Halts-scylla_version : (n : Node) → Halts e (scylla_version n)
  unfolding scylla_version
  Halts-scylla_version n = search (api_ends) depth 10

  pub Halts-counter_migration_supported : (n : Node) → Halts e (counter_migration_supported n)
  unfolding counter_migration_supported
  Halts-counter_migration_supported n = search (api_ends, Halts-scylla_version) depth 10

  pub Halts-rack_list_enforced : (n : Node) → Halts e (rack_list_enforced n)
  unfolding rack_list_enforced
  Halts-rack_list_enforced n = search (api_ends) depth 10

  Halts-transient_nodes :
      (host : Option String) (l : List String) → Halts e (transient_nodes host l)
  unfolding transient_nodes
  Halts-transient_nodes host [] = Halts-pure []
  Halts-transient_nodes host (what ∷ l) =
      let ih = Halts-transient_nodes host l in search (api_ends) depth 10

  Halts-read_cluster : (n : Node) → Halts e (read_cluster n)
  unfolding read_cluster
  Halts-read_cluster n = search (api_ends, Halts-transient_nodes) depth 12

  Halts-texts : (l : List Json) → Halts e (texts l)
  unfolding texts
  Halts-texts [] = Halts-pure []
  Halts-texts (x ∷ l) = let ih = Halts-texts l in search (api_ends) depth 10

  Halts-report_down : (down : Json) → Halts e (report_down down)
  unfolding report_down
  Halts-report_down down = search (api_ends, Halts-texts) depth 10

  Halts-report_count : (up all : ℕ) → Halts e (report_count up all)
  unfolding report_count
  Halts-report_count up all = search (halts_rules) depth 10

  Halts-report_transient : (p : String × Json) → Halts e (report_transient p)
  unfolding report_transient
  Halts-report_transient (what, address) = search halts_rules depth 8

  Halts-judge : (nodes : ℕ) (r : Reading) → Halts e (judge nodes r)
  unfolding judge judge_view
  Halts-judge nodes (seen v) =
      search (api_ends, Halts-report_down, Halts-report_count, Halts-report_transient) depth 10
  Halts-judge nodes (unreadable m) = search halts_rules depth 8

  pub Halts-check_cluster_up : (n : Node) (nodes : List Node) → Halts e (check_cluster_up n nodes)
  unfolding check_cluster_up
  Halts-check_cluster_up n nodes = search (halts_rules, Halts-read_cluster, Halts-judge) depth 10

  Halts-answered : (o : Option (Option (Dict String))) → Halts e (answered o)
  Halts-answered none = Halts-raise _
  Halts-answered (some row) = Halts-pure row

  Halts-query_replication : (keyspace : String) → Halts e (query_replication keyspace)
  unfolding query_replication
  Halts-query_replication keyspace = record {
    at = λ s. (Halts-answered (e.replication s.trace keyspace)).at _;
  }

  Halts-report_rf :
      (nodes : List Node) (enforced : Bool) (p : String × String)
      → Halts e (report_rf nodes enforced p)
  unfolding report_rf
  Halts-report_rf nodes enforced (dc, rf) = search halts_rules depth 12

  Halts-check_replication :
      (nodes : List Node) (enforced : Bool) (d : Dict String)
      → Halts e (check_replication nodes enforced d)
  unfolding check_replication
  Halts-check_replication nodes enforced d = search (halts_rules, Halts-report_rf) depth 10

  Halts-name_line : (name : String) → Halts e (name_line name)
  unfolding name_line
  Halts-name_line name = search (halts_rules) depth 10

  Halts-warn_views : (meta : Keyspace) → Halts e (warn_views meta)
  unfolding warn_views
  Halts-warn_views meta = search (halts_rules, Halts-name_line) depth 10

  Halts-check_counters :
      (counters_ok : Bool) (meta : Keyspace) → Halts e (check_counters counters_ok meta)
  unfolding check_counters
  Halts-check_counters counters_ok meta = search (halts_rules, Halts-name_line) depth 14

  Halts-check_cdc : (meta : Keyspace) → Halts e (check_cdc meta)
  unfolding check_cdc
  Halts-check_cdc meta = search (halts_rules, Halts-name_line) depth 14

  Halts-check_compaction : (meta : Keyspace) → Halts e (check_compaction meta)
  unfolding check_compaction
  Halts-check_compaction meta = search (halts_rules, Halts-name_line) depth 10

  Halts-warn_tombstones : (meta : Keyspace) → Halts e (warn_tombstones meta)
  unfolding warn_tombstones
  Halts-warn_tombstones meta = search (halts_rules) depth 10

  Halts-check_tables :
      (keyspace : String) (meta : Keyspace) (b : Bool) → Halts e (check_tables keyspace meta b)
  unfolding check_tables
  Halts-check_tables keyspace meta b =
      search (halts_rules, Halts-check_cdc, Halts-check_compaction, Halts-warn_tombstones) depth 10

  Halts-check_keyspace :
      (nodes : List Node) (keyspace : String) (counters_ok enforced : Bool) (meta : Keyspace)
      → Halts e (check_keyspace nodes keyspace counters_ok enforced meta)
  unfolding check_keyspace
  Halts-check_keyspace nodes keyspace counters_ok enforced meta =
      search
        (
          halts_rules, Halts-query_replication, Halts-check_replication, Halts-warn_views,
          Halts-check_counters, Halts-check_tables,
        )
        depth 10

  pub Halts-preflight :
      (schema : Dict Keyspace) (nodes : List Node) (keyspace : String) (counters_ok enforced : Bool)
      → Halts e (preflight schema nodes keyspace counters_ok enforced)
  unfolding preflight
  Halts-preflight schema nodes keyspace counters_ok enforced =
      search (halts_rules, Halts-check_keyspace) depth 10
