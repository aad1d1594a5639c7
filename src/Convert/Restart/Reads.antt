-- ===== src/Convert/Restart/Reads.antt =====
-- Which calls the restart of a node makes (sample_app/convert_to_tablets.py): the drain, the
-- deletion of the pod, and reads.
use scylla_k8s_example.Base.{ℕ, zero, suc, String, List, [], ◌∷◌, Option, none, Bool, true, false}
use scylla_k8s_example.Json.{Json}
use scylla_k8s_example.Exec.{Event, sent, Reply, rest, kube, post, delete, drain, KubeRoute, Exec}
use scylla_k8s_example.Exec.Emits.{
  Emits, Emits-pure, Emits-raise, Emits-bind, Emits-out_of_fuel, emits_rules,
}
use scylla_k8s_example.Convert.Api.{api, Quiet, quiet_rules, Emits-api}
use scylla_k8s_example.Convert.Kube.{
  K8s, delete_pod, Emits-pod_ip, Emits-can_delete_pods, Emits-delete_pod,
}
use scylla_k8s_example.Convert.Nodes.{Node}
use scylla_k8s_example.Convert.Nodes.Reads.{Emits-label, Emits-resolve_api_host, Emits-is_up}
use scylla_k8s_example.Convert.Restart.{RestartWith, k8s, manual, Options, progress, poll, wait_for}
use scylla_k8s_example.Convert.Restart.{
  pod_candidate, entries_for, map_candidates, put_first, find_again,
}
use scylla_k8s_example.Convert.Restart.{
  refresh_api_host, serves, node_back_up, without_pod, check_kubernetes,
}
use scylla_k8s_example.Convert.Restart.{
  check_by, check_restart_capability, drain_node, stop_node, is_down,
}
use scylla_k8s_example.Convert.Restart.{require, restart_node}

-- The two changes that a restart makes.
pub record Restarts (Q : Event → Type 0) : Type 0 where
  pub drains :
      (host : String) (port : ℕ) (timeout : ℕ) (r : Reply)
      → Q (sent (rest post host port drain none timeout) r)
  pub deletes :
      (base : String) (route : KubeRoute) (timeout : ℕ) (r : Reply)
      → Q (sent (kube delete base route timeout) r)

module _ {Q : Event → Type 0} where
  pub Emits-require : (b : Bool) {m : Exec String} → Emits Q m → Emits Q (require b m)
  unfolding require
  Emits-require true km = Emits-pure tt
  Emits-require false km = Emits-bind km (λ m. Emits-raise _)

  Emits-put_first : (n : Node) (a : String) → Emits Q (put_first n a)
  unfolding put_first
  Emits-put_first n a = search emits_rules depth 8

  Emits-without_pod : (nodes : List Node) → Emits Q (without_pod nodes)
  unfolding without_pod
  Emits-without_pod [] = Emits-pure []
  Emits-without_pod (n ∷ nodes) =
      let ih = Emits-without_pod nodes in search (emits_rules, Emits-label) depth 8

module _ {Q : Event → Type 0} (q : Quiet Q) where
  pub Emits-progress : (waited : ℕ) → Emits Q (progress waited)
  unfolding progress
  Emits-progress waited = search quiet_rules

  Emits-poll :
      (fuel : ℕ) {p : Exec Bool} (deadline interval waited : ℕ)
      → Emits Q p
      → Emits Q (poll fuel p deadline interval waited)
  unfolding poll
  Emits-poll zero deadline interval waited kp = Emits-out_of_fuel
  Emits-poll (suc fuel) deadline interval waited kp =
      search (quiet_rules, Emits-progress, Emits-poll fuel) depth 12

  pub Emits-wait_for :
      {p : Exec Bool} (timeout : ℕ) (message : String) (interval : ℕ)
      → Emits Q p
      → Emits Q (wait_for p timeout message interval)
  unfolding wait_for
  Emits-wait_for timeout message interval kp = search (quiet_rules, Emits-poll) depth 8

  Emits-pod_candidate : (n : Node) (k : K8s) → Emits Q (pod_candidate n k)
  unfolding pod_candidate
  Emits-pod_candidate n k = search (quiet_rules, Emits-pod_ip) depth 10

  Emits-entries_for :
      (id : String) (l : List Json) (found : List String) → Emits Q (entries_for id l found)
  unfolding entries_for
  Emits-entries_for id [] found = Emits-pure found
  Emits-entries_for id (entry ∷ l) found = search (quiet_rules, Emits-entries_for id l) depth 12

  Emits-map_candidates :
      (n control : Node) (found : List String) → Emits Q (map_candidates n control found)
  unfolding map_candidates
  Emits-map_candidates n control found = search (quiet_rules, Emits-entries_for) depth 12

  Emits-find_again : (n control : Node) (k : K8s) → Emits Q (find_again n control k)
  unfolding find_again
  Emits-find_again n control k =
      search
        (
          quiet_rules, Emits-pod_candidate, Emits-map_candidates, Emits-put_first,
          Emits-resolve_api_host,
        )
        depth 12

  Emits-refresh_api_host : (n control : Node) (k : K8s) → Emits Q (refresh_api_host n control k)
  unfolding refresh_api_host
  Emits-refresh_api_host n control k = search (emits_rules, Emits-is_up, Emits-find_again) depth 8

  Emits-serves : (control n : Node) → Emits Q (serves control n)
  unfolding serves
  Emits-serves control n = search quiet_rules depth 14

  pub Emits-node_back_up : (control n : Node) (k : K8s) → Emits Q (node_back_up control n k)
  unfolding node_back_up
  Emits-node_back_up control n k =
      search (emits_rules, Emits-refresh_api_host, Emits-serves) depth 8

  Emits-check_kubernetes : (nodes : List Node) (k : K8s) → Emits Q (check_kubernetes nodes k)
  unfolding check_kubernetes
  Emits-check_kubernetes nodes k =
      search (quiet_rules, Emits-without_pod, Emits-can_delete_pods) depth 10

  Emits-check_by : (r : RestartWith) (nodes : List Node) (k : K8s) → Emits Q (check_by r nodes k)
  unfolding check_by
  Emits-check_by k8s nodes k = Emits-check_kubernetes nodes k
  Emits-check_by manual nodes k = Emits-pure tt

  pub Emits-check_restart_capability :
      (nodes : List Node) (opts : Options) (k : K8s)
      → Emits Q (check_restart_capability nodes opts k)
  unfolding check_restart_capability
  Emits-check_restart_capability nodes opts k = Emits-check_by opts.restart nodes k

  pub Emits-is_down : (n : Node) → Emits Q (is_down n)
  unfolding is_down
  Emits-is_down n = search quiet_rules depth 8

module _ {Q : Event → Type 0} (q : Quiet Q) (a : Restarts Q) where
  Emits-drain_call :
      (host : Option String) (timeout : ℕ) → Emits Q (api post host drain none timeout)
  Emits-drain_call host timeout =
      Emits-api post host drain none timeout (λ port r. a.drains _ port timeout r)

  pub Emits-drain_node : (n : Node) (timeout : ℕ) → Emits Q (drain_node n timeout)
  unfolding drain_node
  Emits-drain_node n timeout = search (quiet_rules, Emits-drain_call) depth 10

  Emits-delete_call : (k : K8s) (name : String) → Emits Q (delete_pod k name)
  Emits-delete_call k name = Emits-delete_pod k name (λ r. a.deletes _ _ _ r)

  pub Emits-stop_node : (r : RestartWith) (n : Node) (k : K8s) → Emits Q (stop_node r n k)
  unfolding stop_node
  Emits-stop_node k8s n k = search (quiet_rules, Emits-delete_call) depth 8
  Emits-stop_node manual n k = search quiet_rules depth 8

  pub Emits-restart_node :
      (n control : Node) (opts : Options) (k : K8s) → Emits Q (restart_node n control opts k)
  unfolding restart_node
  Emits-restart_node n control opts k =
      search
        (
          quiet_rules,
          Emits-drain_node,
          Emits-stop_node,
          Emits-wait_for q,
          Emits-is_down,
          Emits-node_back_up,
          Emits-require,
          Emits-label,
        )
        depth 16
