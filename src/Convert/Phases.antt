-- ===== src/Convert/Phases.antt =====
-- The phases of a migration and of a rollback (sample_app/convert_to_tablets.py, `rollback`,
-- `migrate`).
pub mod Ends
pub mod Effects
pub mod Guards
pub mod Reached
pub mod Prepared
pub mod Finalization
pub mod Changes
use scylla_k8s_example.Base.{ℕ, String, ◌<>◌, Bool, true, false, not, ◌||◌, Option, none, some}
use scylla_k8s_example.Base.{List, [], ◌∷◌, ◌++◌, if◌then◌else◌, string_eq, ◌==◌, is_empty, length}
use scylla_k8s_example.Base.Text.{show_nat, join}
use scylla_k8s_example.Base.Dict.{Dict}
use scylla_k8s_example.Json.{Json, is_text, show, truthy}
use scylla_k8s_example.Exec.{fatal, post, keyspace_status, finalization, only_api_error, message_of}
use scylla_k8s_example.Exec.{Exec, pure, raise, ◌>>=◌, ◌>>◌, maybe, try_catch, for_each, say}
use scylla_k8s_example.Convert.Api.{api}
use scylla_k8s_example.Convert.Kube.{K8s}
use scylla_k8s_example.Convert.Nodes.{Node, label, pick_control}
use scylla_k8s_example.Convert.Status.{
  host_of, ks_state, phrase_in, set_storage_mode, wait_node_mode,
}
use scylla_k8s_example.Convert.Restart.{Options, require, check_restart_capability, restart_node}
use scylla_k8s_example.Convert.Preflight.Cluster.{
  check_cluster_up, counter_migration_supported, rack_list_enforced,
}
use scylla_k8s_example.Convert.Preflight.Schema.{Keyspace, preflight}
use scylla_k8s_example.Convert.Report.{print_status, confirm}

-- `pick_control(nodes) or control`
unfoldable pub pick_or : List Node → Option Node → Node → Exec Node
pick_or nodes exclude control =
    pick_control nodes exclude >>= λ found. maybe found (pure control) (λ n. pure n)

-- Finalize one keyspace, and see that it ends in the wanted state.
unfoldable pub finalize : Node → ℕ → String → String → Exec Unit
finalize control timeout want keyspace = do
  host ← host_of control
  api post host (finalization keyspace) none timeout
  state ← ks_state control keyspace
  require (is_text state want) (
      pure (
        "keyspace "
        <> keyspace
        <> " is in state '"
        <> show state
        <> "', expected '"
        <> want
        <> "'"))
  say ("  " <> keyspace <> ": " <> want)

unfoldable pub check_unfinalized : Node → String → Exec Unit
check_unfinalized control keyspace = do
  state ← ks_state control keyspace
  require (is_text state "migrating_to_tablets") (
      pure (
        "keyspace "
        <> keyspace
        <> " is in state '"
        <> (if truthy state then show state else "unknown")
        <> "' - only an unfinalized migration can be rolled back"))

-- Whether the node has upgraded its storage for one of the keyspaces, and has to restart.
unfoldable pub needs_restart : Node → Node → List String → Bool → Exec Bool
needs_restart peer n [] needed = pure needed
needs_restart peer n (keyspace ∷ keyspaces) needed = do
  phrase ← phrase_in peer n keyspace
  needs_restart peer n keyspaces (if phrase == "migrating to vnodes" then true else needed)

unfoldable pub downgrade_node : Node → List Node → Options → K8s → Node → Exec Unit
downgrade_node control nodes opts k8s n = do
  l ← label n
  say ("\n-- " <> l)
  peer ← pick_or nodes (some n) control
  set_storage_mode n "vnodes"
  restart ← needs_restart peer n opts.keyspaces false
  (if restart then restart_node n peer opts k8s else pure tt)
  reached ← wait_node_mode peer n opts.keyspaces "vnodes" opts.state_timeout
  require reached (do l' ← label n; pure (l' <> " did not return to vnodes"))
  say "  uses vnodes"

-- The end of a rollback.
unfoldable pub finish_rollback : Node → List Node → Options → Exec Unit
finish_rollback control nodes opts = do
  chosen ← pick_or nodes none control
  for_each opts.keyspaces λ keyspace. do
    say ("\n-- finalizing rollback of " <> keyspace)
    finalize chosen opts.state_timeout "vnodes" keyspace
  print_status chosen nodes opts.keyspaces

unfoldable pub rollback : Node → List Node → Options → K8s → Exec Unit
rollback control nodes opts k8s = do
  say "\n== Rolling back to vnodes =="
  for_each opts.keyspaces (check_unfinalized control)
  check_restart_capability nodes opts k8s
  sure ←
      confirm ("Downgrade all " <> show_nat (length nodes) <> " node(s) back to vnodes?") opts.yes_
  require sure (pure "aborted")
  for_each nodes (downgrade_node control nodes opts k8s)
  finish_rollback control nodes opts

-- The keyspaces that have to be prepared, and whether a check failed so far.
pub record Triage : Type 0 where
  pub to_prepare : List String
  pub blocked : Bool

-- `ks_state`, whose error of the API ends the migration.
unfoldable pub state_or_fatal : Node → String → Exec Json
state_or_fatal control keyspace = try_catch only_api_error (ks_state control keyspace) λ x.
    raise (fatal ("could not read the migration status of " <> keyspace <> ": " <> message_of x))

unfoldable pub triage_keyspace :
    Dict Keyspace → List Node → Bool → Bool → String → Json → Triage → Exec Triage
triage_keyspace schema nodes counters_ok enforced keyspace state t =
    if is_text state "vnodes"
    then (do
      passed ← preflight schema nodes keyspace counters_ok enforced
      pure (record {
        to_prepare = t.to_prepare ++ (keyspace ∷ []);
        blocked = t.blocked || not passed;
      }))
    else if is_text state "migrating_to_tablets"
    then (say ("  " <> keyspace <> ": already prepared, resuming") >>= λ _. pure t)
    else if is_text state "tablets"
    then raise (fatal ("keyspace " <> keyspace <> " already uses tablets - nothing to do"))
    else raise (fatal ("keyspace " <> keyspace <> " is in unexpected state '" <> show state <> "'"))

unfoldable pub triage :
    Node → Dict Keyspace → List Node → Bool → Bool → List String → Triage → Exec Triage
triage control schema nodes counters_ok enforced [] t = pure t
triage control schema nodes counters_ok enforced (keyspace ∷ keyspaces) t = do
  state ← state_or_fatal control keyspace
  more ← triage_keyspace schema nodes counters_ok enforced keyspace state t
  triage control schema nodes counters_ok enforced keyspaces more

-- Phase 0, up to the question.
unfoldable pub check_all : Node → Dict Keyspace → List Node → Options → K8s → Exec (List String)
check_all control schema nodes opts k8s = do
  say "\n== Preflight =="
  up ← check_cluster_up control nodes
  require (up || opts.force)
      (pure "the cluster is not fully up - every node must be up before migrating")
  check_restart_capability nodes opts k8s
  counters_ok ← counter_migration_supported control
  enforced ← rack_list_enforced control
  t ←
      triage control schema nodes counters_ok enforced opts.keyspaces
        (record { to_prepare = []; blocked = not up })
  require (not t.blocked || opts.force)
      (pure "preflight failed - fix the above, or re-run with -F to override")
  (if t.blocked then say "\npreflight failed, continuing anyway (-F)" else pure tt)
  say "  ok"
  pure t.to_prepare

abbrev notice : String
notice =
    "\nThis migration restarts ScyllaDB on every node, one at a time.\nEach node reshards its data while offline on startup, which can take minutes to\nhours depending on how much data it holds. The keyspace stays available (RF > 1)\nbut performance is degraded until the migration finishes.\nDo not change schema or topology, repair, or TRUNCATE these keyspaces meanwhile."

-- The `POST` that starts a migration. An error of the API is explained and ends the run.
unfoldable pub start_or_fatal : Node → ℕ → String → Exec Unit
start_or_fatal control timeout keyspace =
    try_catch only_api_error
      (do host ← host_of control; api post host (keyspace_status keyspace) none timeout; pure tt)
      λ x. do
        say ("  " <> message_of x)
        say "  if it reports another migration in progress, look for a stale node mode:"
        say "    SELECT host_id, intended_storage_mode FROM system.topology"
        say "  a node stuck at 'tablets' with no migration running blocks every new migration"
        raise (fatal ("could not start the migration of " <> keyspace))

unfoldable pub prepare : Node → ℕ → String → Exec Unit
prepare control timeout keyspace = do
  say ("-- start " <> keyspace)
  start_or_fatal control timeout keyspace
  state ← ks_state control keyspace
  require (is_text state "migrating_to_tablets") (
      pure (
        "keyspace "
        <> keyspace
        <> " is in state '"
        <> show state
        <> "', expected 'migrating_to_tablets'"))
  say ("  " <> keyspace <> ": migrating_to_tablets")

-- Phase 1.
unfoldable pub prepare_all : Node → Options → List String → Exec Unit
prepare_all control opts to_prepare = if is_empty to_prepare then pure tt else (do
  say "\n== Phase 1: building tablet maps =="
  for_each to_prepare (prepare control opts.state_timeout))

-- Whether the node uses tablets in every keyspace.
unfoldable pub is_done : Node → Node → List String → Bool → Exec Bool
is_done peer n [] done = pure done
is_done peer n (keyspace ∷ keyspaces) done = do
  phrase ← phrase_in peer n keyspace
  is_done peer n keyspaces (if phrase == "uses tablets" then done else false)

unfoldable pub upgrade_with : Options → K8s → Node → Node → Exec Unit
upgrade_with opts k8s n peer = do
  done ← is_done peer n opts.keyspaces true
  if done then say "  already uses tablets, skipping" else (do
    set_storage_mode n "tablets"
    say "  marked for upgrade"
    restart_node n peer opts k8s
    reached ← wait_node_mode peer n opts.keyspaces "tablets" opts.state_timeout
    require reached (do l ← label n; pure (l <> " did not reach 'uses tablets'"))
    say "  uses tablets")

-- One round of phase 2.
unfoldable pub upgrade_node : List Node → Options → K8s → Node → Exec Unit
upgrade_node nodes opts k8s n = do
  l ← label n
  say ("\n-- " <> l)
  peer ← pick_control nodes (some n)
  maybe peer (raise (fatal "no other node is answering its API - the cluster must stay up"))
      (upgrade_with opts k8s n)

-- Phase 3, behind its question.
unfoldable pub finish_migration : Node → List Node → Options → Exec Unit
finish_migration control nodes opts = do
  chosen ← pick_or nodes none control
  for_each opts.keyspaces λ keyspace. do
    say ("-- finalize " <> keyspace)
    finalize chosen opts.state_timeout "tablets" keyspace
  say "\nMigration complete. Tablet layout now converges to a power-of-two layout in"
  say "the background; performance stays suboptimal until it does. Watch it with:"
  say ("  convert_to_tablets.py -S " <> join " " opts.keyspaces)
  print_status chosen nodes opts.keyspaces

-- The question before the first change.
unfoldable pub ask_to_start : Options → Exec Unit
ask_to_start opts = do
  say notice
  sure ← confirm ("Migrate " <> join " " opts.keyspaces <> " to tablets?") opts.yes_
  require sure (pure "aborted")

-- The question before the step that cannot be undone.
unfoldable pub ask_to_finalize : Options → Exec Unit
ask_to_finalize opts = do
  say "\n== Phase 3: finalizing =="
  say "Finalization cannot be undone - after this the keyspace cannot go back to vnodes."
  sure ← confirm ("Finalize " <> join " " opts.keyspaces <> "?") opts.yes_
  require sure (pure "aborted before finalization (roll back with -r)")

unfoldable pub migrate : Dict Keyspace → Node → List Node → Options → K8s → Exec Unit
migrate schema control nodes opts k8s = do
  to_prepare ← check_all control schema nodes opts k8s
  ask_to_start opts
  prepare_all control opts to_prepare
  say "\n== Phase 2: upgrading node storage =="
  for_each nodes (upgrade_node nodes opts k8s)
  ask_to_finalize opts
  finish_migration control nodes opts
