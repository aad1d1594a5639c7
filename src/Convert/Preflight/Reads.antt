-- ===== src/Convert/Preflight/Reads.antt =====
-- The checks before a migration only read (sample_app/convert_to_tablets.py).
use scylla_k8s_example.Base.{ℕ, String, List, [], ◌∷◌, Option, none, some, Bool}
use scylla_k8s_example.Base.Dict.{Dict}
use scylla_k8s_example.Json.{Json}
use scylla_k8s_example.Exec.{Event}
use scylla_k8s_example.Exec.Emits.{
  Emits, Emits-pure, Emits-raise, same, more, Extends-trans, emits_rules,
}
use scylla_k8s_example.Exec.Values.{values_rules}
use scylla_k8s_example.Convert.Api.{Quiet, quiet_rules}
use scylla_k8s_example.Convert.Nodes.{Node}
use scylla_k8s_example.Convert.Preflight.Cluster.{scylla_version, counter_migration_supported}
use scylla_k8s_example.Convert.Preflight.Cluster.{rack_list_enforced, transient_nodes, read_cluster}
use scylla_k8s_example.Convert.Preflight.Cluster.{
  texts, report_down, report_count, report_transient,
}
use scylla_k8s_example.Convert.Preflight.Cluster.{
  Reading, seen, unreadable, judge_view, judge, check_cluster_up,
}
use scylla_k8s_example.Convert.Preflight.Schema.{Keyspace, answered, query_replication, report_rf}
use scylla_k8s_example.Convert.Preflight.Schema.{
  check_replication, name_line, warn_views, check_counters,
}
use scylla_k8s_example.Convert.Preflight.Schema.{
  check_cdc, check_compaction, warn_tombstones, check_tables,
}
use scylla_k8s_example.Convert.Preflight.Schema.{check_keyspace, preflight}

module _ {Q : Event → Type 0} where
  Emits-texts : (l : List Json) → Emits Q (texts l)
  unfolding texts
  Emits-texts [] = Emits-pure []
  Emits-texts (x ∷ l) = let ih = Emits-texts l in search (emits_rules, values_rules) depth 8

module _ {Q : Event → Type 0} (q : Quiet Q) where
  Emits-scylla_version : (n : Node) → Emits Q (scylla_version n)
  unfolding scylla_version
  Emits-scylla_version n = search quiet_rules depth 8

  pub Emits-counter_migration_supported : (n : Node) → Emits Q (counter_migration_supported n)
  unfolding counter_migration_supported
  Emits-counter_migration_supported n = search (emits_rules, Emits-scylla_version) depth 8

  pub Emits-rack_list_enforced : (n : Node) → Emits Q (rack_list_enforced n)
  unfolding rack_list_enforced
  Emits-rack_list_enforced n = search quiet_rules depth 8

  Emits-transient_nodes :
      (host : Option String) (l : List String) → Emits Q (transient_nodes host l)
  unfolding transient_nodes
  Emits-transient_nodes host [] = Emits-pure []
  Emits-transient_nodes host (what ∷ l) =
      let ih = Emits-transient_nodes host l in search quiet_rules depth 8

  Emits-read_cluster : (n : Node) → Emits Q (read_cluster n)
  unfolding read_cluster
  Emits-read_cluster n = search (quiet_rules, Emits-transient_nodes) depth 10

  Emits-report_down : (down : Json) → Emits Q (report_down down)
  unfolding report_down
  Emits-report_down down = search (quiet_rules, Emits-texts) depth 8

  Emits-report_count : (up all : ℕ) → Emits Q (report_count up all)
  unfolding report_count
  Emits-report_count up all = search quiet_rules depth 8

  Emits-report_transient : (p : String × Json) → Emits Q (report_transient p)
  unfolding report_transient
  Emits-report_transient (what, address) = search quiet_rules depth 8

  Emits-judge : (nodes : ℕ) (r : Reading) → Emits Q (judge nodes r)
  unfolding judge judge_view
  Emits-judge nodes (seen v) =
      search (quiet_rules, Emits-report_down, Emits-report_count, Emits-report_transient) depth 10
  Emits-judge nodes (unreadable m) = search quiet_rules depth 8

  pub Emits-check_cluster_up : (n : Node) (nodes : List Node) → Emits Q (check_cluster_up n nodes)
  unfolding check_cluster_up
  Emits-check_cluster_up n nodes = search (emits_rules, Emits-read_cluster, Emits-judge) depth 8

  Emits-answered : (o : Option (Option (Dict String))) → Emits Q (answered o)
  Emits-answered none = Emits-raise _
  Emits-answered (some row) = Emits-pure row

  Emits-query_replication : (keyspace : String) → Emits Q (query_replication keyspace)
  unfolding query_replication
  Emits-query_replication keyspace = record {
    at = λ e s.
        Extends-trans (more (q.queries keyspace) same)
          ((Emits-answered (e.replication s.trace keyspace)).at e _);
  }

  Emits-report_rf :
      (nodes : List Node) (enforced : Bool) (p : String × String)
      → Emits Q (report_rf nodes enforced p)
  unfolding report_rf
  Emits-report_rf nodes enforced (dc, rf) = search quiet_rules depth 12

  Emits-check_replication :
      (nodes : List Node) (enforced : Bool) (d : Dict String)
      → Emits Q (check_replication nodes enforced d)
  unfolding check_replication
  Emits-check_replication nodes enforced d = search (quiet_rules, Emits-report_rf) depth 8

  Emits-name_line : (name : String) → Emits Q (name_line name)
  unfolding name_line
  Emits-name_line name = search quiet_rules

  Emits-warn_views : (meta : Keyspace) → Emits Q (warn_views meta)
  unfolding warn_views
  Emits-warn_views meta = search (quiet_rules, Emits-name_line) depth 8

  Emits-check_counters :
      (counters_ok : Bool) (meta : Keyspace) → Emits Q (check_counters counters_ok meta)
  unfolding check_counters
  Emits-check_counters counters_ok meta = search (quiet_rules, Emits-name_line) depth 14

  Emits-check_cdc : (meta : Keyspace) → Emits Q (check_cdc meta)
  unfolding check_cdc
  Emits-check_cdc meta = search (quiet_rules, Emits-name_line) depth 12

  Emits-check_compaction : (meta : Keyspace) → Emits Q (check_compaction meta)
  unfolding check_compaction
  Emits-check_compaction meta = search (quiet_rules, Emits-name_line) depth 8

  Emits-warn_tombstones : (meta : Keyspace) → Emits Q (warn_tombstones meta)
  unfolding warn_tombstones
  Emits-warn_tombstones meta = search quiet_rules depth 8

  Emits-check_tables :
      (keyspace : String) (meta : Keyspace) (b : Bool) → Emits Q (check_tables keyspace meta b)
  unfolding check_tables
  Emits-check_tables keyspace meta b =
      search (quiet_rules, Emits-check_cdc, Emits-check_compaction, Emits-warn_tombstones) depth 8

  Emits-check_keyspace :
      (nodes : List Node) (keyspace : String) (counters_ok enforced : Bool) (meta : Keyspace)
      → Emits Q (check_keyspace nodes keyspace counters_ok enforced meta)
  unfolding check_keyspace
  Emits-check_keyspace nodes keyspace counters_ok enforced meta =
      search
        (
          emits_rules, Emits-query_replication, Emits-check_replication, Emits-warn_views,
          Emits-check_counters, Emits-check_tables,
        )
        depth 10

  pub Emits-preflight :
      (schema : Dict Keyspace) (nodes : List Node) (keyspace : String) (counters_ok enforced : Bool)
      → Emits Q (preflight schema nodes keyspace counters_ok enforced)
  unfolding preflight
  Emits-preflight schema nodes keyspace counters_ok enforced =
      search (quiet_rules, Emits-check_keyspace) depth 8
