-- ===== src/Convert/Phases/Ends.antt =====
-- The end of the phases (sample_app/convert_to_tablets.py, `restart_node`,
-- `rollback`, `migrate`).
use scylla_k8s_example.Base.{ℕ, String, List, [], ◌∷◌, Option, Bool}
use scylla_k8s_example.Base.Dict.{Dict}
use scylla_k8s_example.Json.{Json}
use scylla_k8s_example.Exec.{Env}
use scylla_k8s_example.Exec.Halts.{Halts, Halts-pure, halts_rules}
use scylla_k8s_example.Convert.Api.Ends.{api_ends}
use scylla_k8s_example.Base.{arith}
use scylla_k8s_example.Convert.Api.{Anything-Quiet}
use scylla_k8s_example.Convert.Kube.{K8s}
use scylla_k8s_example.Convert.Nodes.{Node}
use scylla_k8s_example.Convert.Nodes.Ends.{Halts-label, Halts-pick_control}
use scylla_k8s_example.Convert.Status.Ends.{Halts-ks_state, Halts-phrase_in, Halts-set_storage_mode}
use scylla_k8s_example.Convert.Restart.{
  Options, wait_for, is_down, node_back_up, restart_node, down_timeout,
}
use scylla_k8s_example.Convert.Restart.Reads.{Emits-is_down, Emits-node_back_up}
use scylla_k8s_example.Convert.Restart.Ends.{
  Halts-check_restart_capability, Halts-drain_node, Halts-stop_node, Halts-is_down,
  Halts-node_back_up, Halts-require,
}
use scylla_k8s_example.Convert.Preflight.Ends.{
  Halts-counter_migration_supported, Halts-rack_list_enforced, Halts-check_cluster_up,
  Halts-preflight,
}
use scylla_k8s_example.Convert.Preflight.Schema.{Keyspace}
use scylla_k8s_example.Convert.Report.Ends.{Halts-print_status, Halts-confirm}
use scylla_k8s_example.Convert.Waits.{Ticks, wait_for-Halts, wait_node_mode-Halts}
use scylla_k8s_example.Convert.Phases.{
  pick_or, finalize, check_unfinalized, needs_restart, downgrade_node, finish_rollback, rollback,
  Triage, state_or_fatal, triage_keyspace, triage, check_all, start_or_fatal, prepare, prepare_all,
  is_done, upgrade_with, upgrade_node, finish_migration, ask_to_start, ask_to_finalize, migrate,
}

module _ {e : Env} where
  Halts-pick_or :
      (nodes : List Node) (exclude : Option Node) (control : Node)
      → Halts e (pick_or nodes exclude control)
  unfolding pick_or
  Halts-pick_or nodes exclude control = search (halts_rules, Halts-pick_control) depth 10

  Halts-finalize :
      (control : Node) (timeout : ℕ) (want keyspace : String)
      → Halts e (finalize control timeout want keyspace)
  unfolding finalize
  Halts-finalize control timeout want keyspace =
      search (api_ends, Halts-ks_state, Halts-require) depth 12

  Halts-check_unfinalized :
      (control : Node) (keyspace : String) → Halts e (check_unfinalized control keyspace)
  unfolding check_unfinalized
  Halts-check_unfinalized control keyspace =
      search (halts_rules, Halts-ks_state, Halts-require) depth 10

  Halts-needs_restart :
      (l : List String) (peer n : Node) (needed : Bool) → Halts e (needs_restart peer n l needed)
  unfolding needs_restart
  Halts-needs_restart [] peer n needed = Halts-pure needed
  Halts-needs_restart (keyspace ∷ l) peer n needed =
      search (halts_rules, Halts-phrase_in, Halts-needs_restart l) depth 10

  Halts-is_done : (l : List String) (peer n : Node) (done : Bool) → Halts e (is_done peer n l done)
  unfolding is_done
  Halts-is_done [] peer n done = Halts-pure done
  Halts-is_done (keyspace ∷ l) peer n done =
      search (halts_rules, Halts-phrase_in, Halts-is_done l) depth 10

  Halts-finish_rollback :
      (control : Node) (nodes : List Node) (opts : Options)
      → Halts e (finish_rollback control nodes opts)
  unfolding finish_rollback
  Halts-finish_rollback control nodes opts =
      search (halts_rules, Halts-pick_or, Halts-finalize, Halts-print_status) depth 12

  Halts-state_or_fatal :
      (control : Node) (keyspace : String) → Halts e (state_or_fatal control keyspace)
  unfolding state_or_fatal
  Halts-state_or_fatal control keyspace = search (halts_rules, Halts-ks_state) depth 10

  Halts-triage_keyspace :
      (schema : Dict Keyspace) (nodes : List Node) (counters_ok enforced : Bool) (keyspace : String)
      (state : Json) (t : Triage)
      → Halts e (triage_keyspace schema nodes counters_ok enforced keyspace state t)
  unfolding triage_keyspace
  Halts-triage_keyspace schema nodes counters_ok enforced keyspace state t =
      search (halts_rules, Halts-preflight) depth 12

  Halts-triage :
      (l : List String) (control : Node) (schema : Dict Keyspace) (nodes : List Node)
      (counters_ok enforced : Bool) (t : Triage)
      → Halts e (triage control schema nodes counters_ok enforced l t)
  unfolding triage
  Halts-triage [] control schema nodes counters_ok enforced t = Halts-pure t
  Halts-triage (keyspace ∷ l) control schema nodes counters_ok enforced t =
      search (halts_rules, Halts-state_or_fatal, Halts-triage_keyspace, Halts-triage l) depth 10

  Halts-check_all :
      (control : Node) (schema : Dict Keyspace) (nodes : List Node) (opts : Options) (k8s : K8s)
      → Halts e (check_all control schema nodes opts k8s)
  unfolding check_all
  Halts-check_all control schema nodes opts k8s =
      search
        (
          halts_rules, Halts-check_cluster_up, Halts-require, Halts-check_restart_capability,
          Halts-counter_migration_supported, Halts-rack_list_enforced, Halts-triage,
        )
        depth 16

  Halts-start_or_fatal :
      (control : Node) (timeout : ℕ) (keyspace : String)
      → Halts e (start_or_fatal control timeout keyspace)
  unfolding start_or_fatal
  Halts-start_or_fatal control timeout keyspace = search (api_ends) depth 14

  Halts-prepare :
      (control : Node) (timeout : ℕ) (keyspace : String)
      → Halts e (prepare control timeout keyspace)
  unfolding prepare
  Halts-prepare control timeout keyspace =
      search (halts_rules, Halts-start_or_fatal, Halts-ks_state, Halts-require) depth 12

  Halts-prepare_all :
      (control : Node) (opts : Options) (to_prepare : List String)
      → Halts e (prepare_all control opts to_prepare)
  unfolding prepare_all
  Halts-prepare_all control opts to_prepare = search (halts_rules, Halts-prepare) depth 10

  Halts-finish_migration :
      (control : Node) (nodes : List Node) (opts : Options)
      → Halts e (finish_migration control nodes opts)
  unfolding finish_migration
  Halts-finish_migration control nodes opts =
      search (halts_rules, Halts-pick_or, Halts-finalize, Halts-print_status) depth 14

  Halts-ask_to_start : (opts : Options) → Halts e (ask_to_start opts)
  unfolding ask_to_start
  Halts-ask_to_start opts = search (halts_rules, Halts-confirm, Halts-require) depth 10

  Halts-ask_to_finalize : (opts : Options) → Halts e (ask_to_finalize opts)
  unfolding ask_to_finalize
  Halts-ask_to_finalize opts = search (halts_rules, Halts-confirm, Halts-require) depth 10

module _ {e : Env} (c : Ticks e) where
  went_down : (n : Node) (message : String) → Halts e (wait_for (is_down n) down_timeout message 5)
  went_down n message =
      wait_for-Halts c (is_down n) down_timeout message 5 (omega arith) (Halts-is_down n)
        (Emits-is_down Anything-Quiet n)

  came_back :
      (control n : Node) (k : K8s) (timeout : ℕ) (message : String)
      → Halts e (wait_for (node_back_up control n k) timeout message 10)
  came_back control n k timeout message =
      wait_for-Halts c (node_back_up control n k) timeout message 10 (omega arith)
        (Halts-node_back_up control n k) (Emits-node_back_up Anything-Quiet control n k)

  Halts-restart_node :
      (n control : Node) (opts : Options) (k : K8s) → Halts e (restart_node n control opts k)
  unfolding restart_node
  Halts-restart_node n control opts k =
      search
        (
          halts_rules, Halts-drain_node, Halts-stop_node, went_down, came_back, Halts-require,
          Halts-label,
        )
        depth 14

  Halts-downgrade_node :
      (control : Node) (nodes : List Node) (opts : Options) (k8s : K8s) (n : Node)
      → Halts e (downgrade_node control nodes opts k8s n)
  unfolding downgrade_node
  Halts-downgrade_node control nodes opts k8s n =
      search
        (
          halts_rules,
          Halts-label,
          Halts-pick_or,
          Halts-set_storage_mode,
          Halts-needs_restart,
          Halts-restart_node,
          wait_node_mode-Halts c,
          Halts-require,
        )
        depth 16

  Halts-upgrade_with :
      (opts : Options) (k8s : K8s) (n peer : Node) → Halts e (upgrade_with opts k8s n peer)
  unfolding upgrade_with
  Halts-upgrade_with opts k8s n peer =
      search
        (
          halts_rules,
          Halts-is_done,
          Halts-label,
          Halts-set_storage_mode,
          Halts-restart_node,
          wait_node_mode-Halts c,
          Halts-require,
        )
        depth 14

  Halts-upgrade_node :
      (nodes : List Node) (opts : Options) (k8s : K8s) (n : Node)
      → Halts e (upgrade_node nodes opts k8s n)
  unfolding upgrade_node
  Halts-upgrade_node nodes opts k8s n =
      search (halts_rules, Halts-label, Halts-pick_control, Halts-upgrade_with) depth 10

  pub Halts-rollback :
      (control : Node) (nodes : List Node) (opts : Options) (k8s : K8s)
      → Halts e (rollback control nodes opts k8s)
  unfolding rollback
  Halts-rollback control nodes opts k8s =
      search
        (
          halts_rules, Halts-check_unfinalized, Halts-check_restart_capability, Halts-confirm,
          Halts-require, Halts-downgrade_node, Halts-finish_rollback,
        )
        depth 14

  pub Halts-migrate :
      (schema : Dict Keyspace) (control : Node) (nodes : List Node) (opts : Options) (k8s : K8s)
      → Halts e (migrate schema control nodes opts k8s)
  unfolding migrate
  Halts-migrate schema control nodes opts k8s =
      search
        (
          halts_rules, Halts-check_all, Halts-ask_to_start, Halts-prepare_all, Halts-upgrade_node,
          Halts-ask_to_finalize, Halts-finish_migration,
        )
        depth 14
