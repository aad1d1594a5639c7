-- ===== src/Convert/Restart.antt =====
-- Restarting one node (sample_app/convert_to_tablets.py, `wait_for`, `refresh_api_host`,
-- `node_back_up`, `check_restart_capability`, `restart_node`).
pub mod Ends
pub mod Reads
pub mod Returned
use scylla_k8s_example.Base.{
  ℕ, zero, suc, ◌+◌, ◌*◌, ◌%◌, String, ◌<>◌, Bool, true, false, not, ◌&&◌, Option, none, some,
}
use scylla_k8s_example.Base.{
  List, [], ◌∷◌, ◌++◌, if◌then◌else◌, string_eq, nat_eq, ◌==◌, leb, contains, is_empty,
}
use scylla_k8s_example.Base.Text.{show_nat, join}
use scylla_k8s_example.Json.{Json, bool, is_text}
use scylla_k8s_example.Exec.{get, post, drain, host_id_map, native_transport, endpoint_live}
use scylla_k8s_example.Exec.{
  Exec, pure, raise, gets, ◌>>=◌, ◌>>◌, maybe, try_catch, api_failure, for_each, say, sleep, clock,
}
use scylla_k8s_example.Exec.{out_of_fuel, fatal, message_of, set_addresses, set_api_host}
use scylla_k8s_example.Exec.Values.{index, iterate, is_in, as_text}
use scylla_k8s_example.Json.{truthy}
use scylla_k8s_example.Convert.Api.{api, api_get, api_alive, host_text}
use scylla_k8s_example.Convert.Kube.{K8s, pod_ip, delete_pod, can_delete_pods, or_text}
use scylla_k8s_example.Convert.Nodes.{Node, label, resolve_api_host, is_up, has_host}
use scylla_k8s_example.Convert.Status.{host_of, second}

-- `opts`, as `parse_args` makes it. Times are whole seconds, and not negative.
pub data RestartWith : Type 0 where
  k8s manual : RestartWith

pub record Options : Type 0 where
  pub keyspaces : List String
  pub status : Bool
  pub rollback : Bool
  pub restart : RestartWith
  pub api_port : ℕ
  pub state_timeout : ℕ
  pub node_timeout : ℕ
  pub force : Bool
  pub yes_ : Bool
  pub dc : String

abbrev pub down_timeout : ℕ
down_timeout = 300

unfoldable pub progress : ℕ → Exec Unit
progress waited =
    if waited % 60 == 0 then say ("    still waiting (" <> show_nat waited <> "s)") else pure tt

-- The loop `while not predicate()`, with the fuel that is left.
unfoldable pub poll : ℕ → Exec Bool → ℕ → ℕ → ℕ → Exec Bool
poll zero predicate deadline interval waited = out_of_fuel
poll (suc fuel) predicate deadline interval waited = predicate >>= λ b.
    if b
    then pure true
    else (clock >>= λ now.
        if leb deadline now
        then pure false
        else (sleep interval >>= λ _. progress (waited + interval) >>= λ _.
            poll fuel predicate deadline interval (waited + interval)))

-- Each round sleeps for at least a second, so `timeout + 1` rounds reach the deadline.
unfoldable pub wait_for : Exec Bool → ℕ → String → ℕ → Exec Bool
wait_for predicate timeout message interval = do
  say ("  " <> message)
  start ← clock
  poll (suc timeout) predicate (start + timeout * second) interval 0

-- The address of the node's pod, if Kubernetes knows one.
unfoldable pub pod_candidate : Node → K8s → Exec (List String)
pod_candidate n k =
    if k.available && has_host n.pod
    then (do
      ip ← pod_ip k (host_text n.pod)
      if truthy ip then (do a ← as_text ip; pure (a ∷ [])) else pure [])
    else pure []

-- The addresses that the cluster's map of host IDs has for the node. A failure keeps those found.
unfoldable pub entries_for : String → List Json → List String → Exec (List String)
entries_for id [] found = pure found
entries_for id (entry ∷ entries) found = do
  value ← index entry "value"
  more ←
      (if is_text value id
        then (do key ← index entry "key"; a ← as_text key; pure (found ++ (a ∷ [])))
        else pure found)
  entries_for id entries more

unfoldable pub map_candidates : Node → Node → List String → Exec (List String)
map_candidates n control found =
    try_catch api_failure
      (do
        host ← host_of control
        map ← api_get host host_id_map
        entries ← iterate map
        entries_for n.host_id entries found)
      (λ _. pure found)

-- `if address not in node.addresses: node.addresses.insert(0, address)`
unfoldable pub put_first : Node → String → Exec Unit
put_first n a = do
  l ← gets (λ s. s.addresses n.host_id)
  if contains a l then pure tt else set_addresses n.host_id (a ∷ l)

unfoldable pub find_again : Node → Node → K8s → Exec Bool
find_again n control k = do
  first ← pod_candidate n k
  all ← map_candidates n control first
  for_each all (put_first n)
  host ← resolve_api_host n
  set_api_host n.host_id host
  maybe host (pure false) (λ _. pure true)

unfoldable pub refresh_api_host : Node → Node → K8s → Exec Bool
refresh_api_host n control k = is_up n >>= λ up. if up then pure true else find_again n control k

abbrev is_true : Json → Bool
is_true (bool true) = true
is_true _ = false

-- The node answers, serves CQL, and is alive to the others at the address just verified.
unfoldable pub serves : Node → Node → Exec Bool
serves control n =
    try_catch api_failure
      (do
        host ← host_of n
        transport ← api_get host native_transport
        if is_true transport
            then (do
              peer ← host_of control
              live ← api_get peer endpoint_live
              is_in (host_text host) live)
            else pure false)
      (λ _. pure false)

unfoldable pub node_back_up : Node → Node → K8s → Exec Bool
node_back_up control n k =
    refresh_api_host n control k >>= λ found. if found then serves control n else pure false

abbrev has_pod : Node → Bool
has_pod n = has_host n.pod

-- The labels of the nodes without a pod.
unfoldable pub without_pod : List Node → Exec (List String)
without_pod [] = pure []
without_pod (n ∷ nodes) = do
  l ← label n
  rest ← without_pod nodes
  pure (if has_pod n then rest else l ∷ rest)

check_kubernetes : List Node → K8s → Exec Unit
check_kubernetes nodes k =
    if k.available
    then (do
      missing ← without_pod nodes
      if is_empty missing
          then (do
            may_delete ← can_delete_pods k
            if may_delete
                then pure tt
                else raise (
                    fatal (
                      "this pod's ServiceAccount may not delete pods in "
                      <> host_text k.namespace
                      <> ", so it cannot restart a node.\n  grant it once with:  kubectl -n "
                      <> host_text k.namespace
                      <> " apply -f sample-apps-k8s-access.yaml\n"
                      <> "  or re-run with --restart manual and restart each node yourself")))
          else raise (
              fatal (
                "--restart k8s could not match a pod to: "
                <> join "; " missing
                <> " - the ServiceAccount must be able to list pods in "
                <> host_text k.namespace
                <> ", or use --restart manual")))
    else raise (
        fatal (
          "--restart k8s needs a Kubernetes ServiceAccount token in "
          <> "/var/run/secrets/kubernetes.io/serviceaccount - run this in a pod, or use "
          <> "--restart manual"))

check_by : RestartWith → List Node → K8s → Exec Unit
check_by k8s nodes k = check_kubernetes nodes k
check_by manual nodes k = pure tt

unfoldable pub check_restart_capability : List Node → Options → K8s → Exec Unit
unfolding check_by check_kubernetes
check_restart_capability nodes opts k = check_by opts.restart nodes k

-- The drain of the node. Its failure is reported and nothing more.
unfoldable pub drain_node : Node → ℕ → Exec Unit
drain_node n timeout =
    try_catch api_failure (do host ← host_of n; api post host drain none timeout; pure tt)
      (λ x. say ("  drain reported: " <> message_of x))

-- The step that brings the process down: the pod is deleted, or somebody is asked to.
unfoldable pub stop_node : RestartWith → Node → K8s → Exec Unit
stop_node k8s n k = do say ("  deleting pod " <> host_text n.pod); delete_pod k (host_text n.pod)
stop_node manual n k = do
  host ← host_of n
  say (
      "  restart "
      <> (if has_pod n then or_text n.pod "" else host_text host)
      <> " now, e.g. kubectl -n "
      <> or_text k.namespace "NAMESPACE"
      <> " delete pod "
      <> or_text n.pod "")

-- `not api_alive(node.api_host)`
unfoldable pub is_down : Node → Exec Bool
is_down n = do host ← host_of n; up ← api_alive (host_text host); pure (not up)

-- `if not reached: raise Fatal(...)`
unfoldable pub require : Bool → Exec String → Exec Unit
require true message = pure tt
require false message = message >>= λ m. raise (fatal m)

unfoldable pub restart_node : Node → Node → Options → K8s → Exec Unit
restart_node n control opts k = do
  say "  draining"
  drain_node n opts.node_timeout
  stop_node opts.restart n k
  down ← wait_for (is_down n) down_timeout "waiting for the node to go down" 5
  require down (do l ← label n; pure (l <> " never went down"))
  back ←
      wait_for (node_back_up control n k) opts.node_timeout
        ("waiting for it to come back (resharding runs on startup, up to "
          <> show_nat opts.node_timeout
          <> "s)")
        10
  require back (do
    l ← label n
    pure (l <> " did not come back within " <> show_nat opts.node_timeout <> "s"))
  host ← host_of n
  say ("  back up on " <> host_text host)
