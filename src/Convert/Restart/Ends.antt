-- ===== src/Convert/Restart/Ends.antt =====
-- The end of the steps of a restart other than its waits (sample_app/convert_to_tablets.py).
use scylla_k8s_example.Base.{ℕ, String, List, [], ◌∷◌, Bool, true, false}
use scylla_k8s_example.Json.{Json}
use scylla_k8s_example.Exec.{Env, Exec}
use scylla_k8s_example.Exec.Halts.{Halts, Halts-pure, Halts-raise, Halts-bind, halts_rules}
use scylla_k8s_example.Convert.Api.Ends.{api_ends}
use scylla_k8s_example.Convert.Kube.{K8s}
use scylla_k8s_example.Convert.Kube.Ends.{Halts-delete_pod, Halts-pod_ip, Halts-can_delete_pods}
use scylla_k8s_example.Convert.Nodes.{Node}
use scylla_k8s_example.Convert.Nodes.Ends.{Halts-label, Halts-resolve_api_host, Halts-is_up}
use scylla_k8s_example.Convert.Restart.{
  RestartWith, k8s, manual, Options, pod_candidate, entries_for, map_candidates, put_first,
  find_again, refresh_api_host, serves, node_back_up, without_pod, check_kubernetes, check_by,
  check_restart_capability, drain_node, stop_node, is_down, require,
}

module _ {e : Env} where
  Halts-pod_candidate : (n : Node) (k : K8s) → Halts e (pod_candidate n k)
  unfolding pod_candidate
  Halts-pod_candidate n k = search (api_ends, Halts-pod_ip) depth 12

  Halts-entries_for :
      (l : List Json) (id : String) (found : List String) → Halts e (entries_for id l found)
  unfolding entries_for
  Halts-entries_for [] id found = Halts-pure found
  Halts-entries_for (entry ∷ l) id found = search (api_ends, Halts-entries_for l) depth 14

  Halts-map_candidates :
      (n control : Node) (found : List String) → Halts e (map_candidates n control found)
  unfolding map_candidates
  Halts-map_candidates n control found = search (api_ends, Halts-entries_for) depth 12

  Halts-put_first : (n : Node) (a : String) → Halts e (put_first n a)
  unfolding put_first
  Halts-put_first n a = search (halts_rules) depth 10

  Halts-find_again : (n control : Node) (k : K8s) → Halts e (find_again n control k)
  unfolding find_again
  Halts-find_again n control k =
      search
        (
          halts_rules, Halts-pod_candidate, Halts-map_candidates, Halts-put_first,
          Halts-resolve_api_host,
        )
        depth 12

  Halts-refresh_api_host : (n control : Node) (k : K8s) → Halts e (refresh_api_host n control k)
  unfolding refresh_api_host
  Halts-refresh_api_host n control k = search (halts_rules, Halts-is_up, Halts-find_again) depth 10

  Halts-serves : (control n : Node) → Halts e (serves control n)
  unfolding serves
  Halts-serves control n = search (api_ends) depth 16

  pub Halts-node_back_up : (control n : Node) (k : K8s) → Halts e (node_back_up control n k)
  unfolding node_back_up
  Halts-node_back_up control n k =
      search (halts_rules, Halts-refresh_api_host, Halts-serves) depth 10

  Halts-without_pod : (l : List Node) → Halts e (without_pod l)
  unfolding without_pod
  Halts-without_pod [] = Halts-pure []
  Halts-without_pod (n ∷ l) =
      let ih = Halts-without_pod l in search (halts_rules, Halts-label) depth 10

  Halts-check_kubernetes : (nodes : List Node) (k : K8s) → Halts e (check_kubernetes nodes k)
  unfolding check_kubernetes
  Halts-check_kubernetes nodes k =
      search (halts_rules, Halts-without_pod, Halts-can_delete_pods) depth 12

  Halts-check_by : (r : RestartWith) (nodes : List Node) (k : K8s) → Halts e (check_by r nodes k)
  unfolding check_by
  Halts-check_by k8s nodes k = Halts-check_kubernetes nodes k
  Halts-check_by manual nodes k = Halts-pure tt

  pub Halts-check_restart_capability :
      (nodes : List Node) (opts : Options) (k : K8s)
      → Halts e (check_restart_capability nodes opts k)
  unfolding check_restart_capability
  Halts-check_restart_capability nodes opts k = search (halts_rules, Halts-check_by) depth 10

  pub Halts-drain_node : (n : Node) (timeout : ℕ) → Halts e (drain_node n timeout)
  unfolding drain_node
  Halts-drain_node n timeout = search (api_ends) depth 12

  pub Halts-stop_node : (r : RestartWith) (n : Node) (k : K8s) → Halts e (stop_node r n k)
  unfolding stop_node
  Halts-stop_node k8s n k = search (halts_rules, Halts-delete_pod) depth 8
  Halts-stop_node manual n k = search halts_rules depth 8

  pub Halts-is_down : (n : Node) → Halts e (is_down n)
  unfolding is_down
  Halts-is_down n = search (api_ends) depth 10

  pub Halts-require : (b : Bool) {m : Exec String} → Halts e m → Halts e (require b m)
  unfolding require
  Halts-require true km = Halts-pure tt
  Halts-require false km = Halts-bind km (λ m. Halts-raise _)
