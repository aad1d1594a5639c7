-- ===== src/Convert/Phases/Effects.antt =====
-- Which calls the phases of a migration and of a rollback make (sample_app/convert_to_tablets.py).
use scylla_k8s_example.Base.{ℕ, String, List, [], ◌∷◌, Option, none, some, Bool}
use scylla_k8s_example.Base.Dict.{Dict}
use scylla_k8s_example.Json.{Json}
use scylla_k8s_example.Exec.{
  Event, sent, Reply, rest, post, put, keyspace_status, finalization, storage_mode,
}
use scylla_k8s_example.Exec.Emits.{Anything, Emits, Emits-pure, emits_rules}
use scylla_k8s_example.Convert.Api.{api, Quiet, quiet_rules, Emits-api}
use scylla_k8s_example.Convert.Kube.{K8s}
use scylla_k8s_example.Convert.Nodes.{Node}
use scylla_k8s_example.Convert.Nodes.Reads.{Emits-label, Emits-pick_control}
use scylla_k8s_example.Convert.Status.{set_storage_mode}
use scylla_k8s_example.Convert.Status.Reads.{Emits-ks_state, Emits-phrase_in, Emits-wait_node_mode}
use scylla_k8s_example.Convert.Restart.{Options, restart_node}
use scylla_k8s_example.Convert.Restart.Reads.{
  Restarts, Emits-require, Emits-check_restart_capability,
}
use scylla_k8s_example.Convert.Restart.Reads.{Emits-restart_node}
use scylla_k8s_example.Convert.Preflight.Schema.{Keyspace}
use scylla_k8s_example.Convert.Preflight.Reads.{
  Emits-check_cluster_up, Emits-counter_migration_supported,
}
use scylla_k8s_example.Convert.Preflight.Reads.{Emits-rack_list_enforced, Emits-preflight}
use scylla_k8s_example.Convert.Report.Reads.{Emits-print_status, Emits-confirm}
use scylla_k8s_example.Convert.Phases.{
  pick_or, finalize, check_unfinalized, needs_restart, downgrade_node,
}
use scylla_k8s_example.Convert.Phases.{
  finish_rollback, Triage, state_or_fatal, triage_keyspace, triage,
}
use scylla_k8s_example.Convert.Phases.{
  check_all, start_or_fatal, prepare, prepare_all, is_done, upgrade_with,
}
use scylla_k8s_example.Convert.Phases.{
  upgrade_node, finish_migration, ask_to_start, ask_to_finalize,
}

-- The reads of the phases.
module _ {Q : Event → Type 0} (q : Quiet Q) where
  pub Emits-pick_or :
      (nodes : List Node) (exclude : Option Node) (control : Node)
      → Emits Q (pick_or nodes exclude control)
  unfolding pick_or
  Emits-pick_or nodes exclude control = search (emits_rules, Emits-pick_control) depth 8

  pub Emits-check_unfinalized :
      (control : Node) (keyspace : String) → Emits Q (check_unfinalized control keyspace)
  unfolding check_unfinalized
  Emits-check_unfinalized control keyspace =
      search (emits_rules, Emits-ks_state, Emits-require) depth 8

  pub Emits-needs_restart :
      (peer n : Node) (l : List String) (b : Bool) → Emits Q (needs_restart peer n l b)
  unfolding needs_restart
  Emits-needs_restart peer n [] b = Emits-pure b
  Emits-needs_restart peer n (k ∷ l) b =
      search (emits_rules, Emits-phrase_in, Emits-needs_restart peer n l) depth 8

  pub Emits-is_done : (peer n : Node) (l : List String) (b : Bool) → Emits Q (is_done peer n l b)
  unfolding is_done
  Emits-is_done peer n [] b = Emits-pure b
  Emits-is_done peer n (k ∷ l) b =
      search (emits_rules, Emits-phrase_in, Emits-is_done peer n l) depth 8

  Emits-state_or_fatal :
      (control : Node) (keyspace : String) → Emits Q (state_or_fatal control keyspace)
  unfolding state_or_fatal
  Emits-state_or_fatal control keyspace = search (emits_rules, Emits-ks_state) depth 8

  pub Emits-triage_keyspace :
      (schema : Dict Keyspace) (nodes : List Node) (counters_ok enforced : Bool) (keyspace : String)
      (state : Json) (t : Triage)
      → Emits Q (triage_keyspace schema nodes counters_ok enforced keyspace state t)
  unfolding triage_keyspace
  Emits-triage_keyspace schema nodes counters_ok enforced keyspace state t =
      search (quiet_rules, Emits-preflight) depth 12

  pub Emits-triage :
      (control : Node) (schema : Dict Keyspace) (nodes : List Node) (counters_ok enforced : Bool)
      (l : List String) (t : Triage)
      → Emits Q (triage control schema nodes counters_ok enforced l t)
  unfolding triage
  Emits-triage control schema nodes counters_ok enforced [] t = Emits-pure t
  Emits-triage control schema nodes counters_ok enforced (k ∷ l) t =
      search
        (
          emits_rules,
          Emits-state_or_fatal,
          Emits-triage_keyspace,
          Emits-triage control schema nodes counters_ok enforced l,
        )
        depth 8

  pub Emits-check_all :
      (control : Node) (schema : Dict Keyspace) (nodes : List Node) (opts : Options) (k8s : K8s)
      → Emits Q (check_all control schema nodes opts k8s)
  unfolding check_all
  Emits-check_all control schema nodes opts k8s =
      search
        (
          quiet_rules, Emits-check_cluster_up, Emits-require, Emits-check_restart_capability,
          Emits-counter_migration_supported, Emits-rack_list_enforced, Emits-triage,
        )
        depth 16

  pub Emits-ask_to_start : (opts : Options) → Emits Q (ask_to_start opts)
  unfolding ask_to_start
  Emits-ask_to_start opts = search (quiet_rules, Emits-confirm, Emits-require) depth 8

  pub Emits-ask_to_finalize : (opts : Options) → Emits Q (ask_to_finalize opts)
  unfolding ask_to_finalize
  Emits-ask_to_finalize opts = search (quiet_rules, Emits-confirm, Emits-require) depth 8

-- The start of a keyspace's migration.
abbrev pub Starts : (Event → Type 0) → Type 0
Starts Q =
    (host : String) (port : ℕ) (keyspace : String) (timeout : ℕ) (r : Reply)
    → Q (sent (rest post host port (keyspace_status keyspace) none timeout) r)

module _ {Q : Event → Type 0} (q : Quiet Q) (starts : Starts Q) where
  Emits-start_call :
      (host : Option String) (keyspace : String) (timeout : ℕ)
      → Emits Q (api post host (keyspace_status keyspace) none timeout)
  Emits-start_call host keyspace timeout =
      Emits-api post host (keyspace_status keyspace) none timeout
        (λ port r. starts _ port keyspace timeout r)

  Emits-start_or_fatal :
      (control : Node) (timeout : ℕ) (keyspace : String)
      → Emits Q (start_or_fatal control timeout keyspace)
  unfolding start_or_fatal
  Emits-start_or_fatal control timeout keyspace = search (quiet_rules, Emits-start_call) depth 12

  pub Emits-prepare :
      (control : Node) (timeout : ℕ) (keyspace : String)
      → Emits Q (prepare control timeout keyspace)
  unfolding prepare
  Emits-prepare control timeout keyspace =
      search (quiet_rules, Emits-start_or_fatal, Emits-ks_state, Emits-require) depth 10

  pub Emits-prepare_all :
      (control : Node) (opts : Options) (l : List String) → Emits Q (prepare_all control opts l)
  unfolding prepare_all
  Emits-prepare_all control opts l = search (quiet_rules, Emits-prepare) depth 8

-- The changes of the migration that can still be undone.
pub record Changes (Q : Event → Type 0) : Type 0 where
  pub restarts : Restarts Q
  pub modes :
      (host : String) (port : ℕ) (mode : String) (r : Reply)
      → Q (sent (rest put host port storage_mode (some ("intended_mode", mode)) 30) r)
  pub starts : Starts Q

module _ {Q : Event → Type 0} (q : Quiet Q) (c : Changes Q) where
  Emits-mode_call :
      (host : Option String) (mode : String)
      → Emits Q (api put host storage_mode (some ("intended_mode", mode)) 30)
  Emits-mode_call host mode =
      Emits-api put host storage_mode (some ("intended_mode", mode)) 30
        (λ port r. c.modes _ port mode r)

  Emits-set_storage_mode : (n : Node) (mode : String) → Emits Q (set_storage_mode n mode)
  unfolding set_storage_mode
  Emits-set_storage_mode n mode = search (emits_rules, Emits-mode_call) depth 8

  Emits-restarts :
      (n peer : Node) (opts : Options) (k8s : K8s) → Emits Q (restart_node n peer opts k8s)
  Emits-restarts n peer opts k8s = Emits-restart_node q c.restarts n peer opts k8s

  pub Emits-downgrade_node :
      (control : Node) (nodes : List Node) (opts : Options) (k8s : K8s) (n : Node)
      → Emits Q (downgrade_node control nodes opts k8s n)
  unfolding downgrade_node
  Emits-downgrade_node control nodes opts k8s n =
      search
        (
          quiet_rules,
          Emits-label,
          Emits-pick_or q,
          Emits-set_storage_mode,
          Emits-needs_restart q,
          Emits-restarts,
          Emits-wait_node_mode,
          Emits-require,
        )
        depth 16

  Emits-upgrade_with :
      (opts : Options) (k8s : K8s) (n peer : Node) → Emits Q (upgrade_with opts k8s n peer)
  unfolding upgrade_with
  Emits-upgrade_with opts k8s n peer =
      search
        (
          quiet_rules,
          Emits-label,
          Emits-is_done q,
          Emits-set_storage_mode,
          Emits-restarts,
          Emits-wait_node_mode,
          Emits-require,
        )
        depth 16

  pub Emits-upgrade_node :
      (nodes : List Node) (opts : Options) (k8s : K8s) (n : Node)
      → Emits Q (upgrade_node nodes opts k8s n)
  unfolding upgrade_node
  Emits-upgrade_node nodes opts k8s n =
      search (quiet_rules, Emits-label, Emits-pick_control, Emits-upgrade_with) depth 10

-- The change that cannot be undone.
abbrev pub Finals : (Event → Type 0) → Type 0
Finals Q =
    (host : String) (port : ℕ) (keyspace : String) (timeout : ℕ) (r : Reply)
    → Q (sent (rest post host port (finalization keyspace) none timeout) r)

module _ {Q : Event → Type 0} (q : Quiet Q) (f : Finals Q) where
  Emits-final_call :
      (host : Option String) (keyspace : String) (timeout : ℕ)
      → Emits Q (api post host (finalization keyspace) none timeout)
  Emits-final_call host keyspace timeout =
      Emits-api post host (finalization keyspace) none timeout
        (λ port r. f _ port keyspace timeout r)

  Emits-finalize :
      (control : Node) (timeout : ℕ) (want keyspace : String)
      → Emits Q (finalize control timeout want keyspace)
  unfolding finalize
  Emits-finalize control timeout want keyspace =
      search (quiet_rules, Emits-final_call, Emits-ks_state, Emits-require) depth 10

  pub Emits-finish_migration :
      (control : Node) (nodes : List Node) (opts : Options)
      → Emits Q (finish_migration control nodes opts)
  unfolding finish_migration
  Emits-finish_migration control nodes opts =
      search (quiet_rules, Emits-pick_or q, Emits-finalize, Emits-print_status) depth 12

  pub Emits-finish_rollback :
      (control : Node) (nodes : List Node) (opts : Options)
      → Emits Q (finish_rollback control nodes opts)
  unfolding finish_rollback
  Emits-finish_rollback control nodes opts =
      search (quiet_rules, Emits-pick_or q, Emits-finalize, Emits-print_status) depth 12

pub Anything-Changes : Changes Anything
Anything-Changes = record {
  restarts = record { drains = λ host port timeout r. tt; deletes = λ base route timeout r. tt };
  modes = λ host port mode r. tt;
  starts = λ host port keyspace timeout r. tt;
}

pub Anything-Finals : Finals Anything
Anything-Finals host port keyspace timeout r = tt
