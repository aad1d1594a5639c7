-- ===== src/Convert/Nodes/Reads.antt =====
-- Finding the nodes changes nothing in the cluster: the calls of `discover_nodes` and
-- `pick_control` (sample_app/convert_to_tablets.py) are reads.
use scylla_k8s_example.Base.{String, List, [], ◌∷◌, Option, none, some, false}
use scylla_k8s_example.Base.{string_eq}
use scylla_k8s_example.Base.Dict.{Dict}
use scylla_k8s_example.Json.{Json}
use scylla_k8s_example.Exec.{Event}
use scylla_k8s_example.Exec.Emits.{Emits, Emits-pure, Emits-bind, Emits-gets, emits_rules}
use scylla_k8s_example.Convert.Api.{Quiet, quiet_rules, Emits-api_alive}
use scylla_k8s_example.Convert.Kube.{K8s, Emits-pods_by_ip}
use scylla_k8s_example.Convert.Nodes.{
  Node, Host, label, answers_as, resolve, resolve_api_host, refresh,
}
use scylla_k8s_example.Convert.Nodes.{make_nodes, split_resolved, append_address, learn_address}
use scylla_k8s_example.Convert.Nodes.{
  learn_addresses, second_pass, name_pods, discover_nodes, alive_at,
}
use scylla_k8s_example.Convert.Nodes.{is_up, pick_control}

module _ {Q : Event → Type 0} where
  pub Emits-label : (n : Node) → Emits Q (label n)
  unfolding label
  Emits-label n = search emits_rules depth 8

  Emits-make_nodes : (hosts : List Host) (nodes : Dict Node) → Emits Q (make_nodes hosts nodes)
  unfolding make_nodes
  Emits-make_nodes [] nodes = Emits-pure nodes
  Emits-make_nodes (h ∷ hosts) nodes = search (emits_rules, Emits-make_nodes hosts) depth 8

  Emits-split_resolved : (nodes : List Node) → Emits Q (split_resolved nodes)
  unfolding split_resolved
  Emits-split_resolved [] = Emits-pure _
  Emits-split_resolved (n ∷ nodes) =
      let ih = Emits-split_resolved nodes in search emits_rules depth 8

  Emits-append_address : (n : Node) (a : String) → Emits Q (append_address n a)
  unfolding append_address
  Emits-append_address n a = search emits_rules depth 8

  Emits-name_pods : (pods : Dict String) (nodes : List Node) → Emits Q (name_pods pods nodes)
  unfolding name_pods
  Emits-name_pods pods [] = Emits-pure _
  Emits-name_pods pods (n ∷ nodes) =
      let ih = Emits-name_pods pods nodes in search emits_rules depth 8

module _ {Q : Event → Type 0} (q : Quiet Q) where
  pub Emits-answers_as : (id address : String) → Emits Q (answers_as id address)
  unfolding answers_as
  Emits-answers_as id address = search quiet_rules depth 8

  Emits-resolve : (id : String) (l : List String) → Emits Q (resolve id l)
  unfolding resolve
  Emits-resolve id [] = Emits-pure none
  Emits-resolve id (a ∷ l) =
      let ih = Emits-resolve id l in search (emits_rules, Emits-answers_as) depth 8

  pub Emits-resolve_api_host : (n : Node) → Emits Q (resolve_api_host n)
  unfolding resolve_api_host
  Emits-resolve_api_host n = search (emits_rules, Emits-resolve) depth 8

  Emits-refresh : (n : Node) → Emits Q (refresh n)
  unfolding refresh
  Emits-refresh n = search (emits_rules, Emits-resolve_api_host) depth 8

  Emits-learn_address : (nodes : Dict Node) (entry : Json) → Emits Q (learn_address nodes entry)
  unfolding learn_address
  Emits-learn_address nodes entry = search (quiet_rules, Emits-append_address) depth 14

  Emits-learn_addresses : (nodes : Dict Node) (n : Node) → Emits Q (learn_addresses nodes n)
  unfolding learn_addresses
  Emits-learn_addresses nodes n = search (quiet_rules, Emits-learn_address) depth 14

  Emits-second_pass :
      (nodes : Dict Node) (found : List Node × Option Node) → Emits Q (second_pass nodes found)
  unfolding second_pass
  Emits-second_pass nodes (unresolved, resolved) =
      search (quiet_rules, Emits-learn_addresses, Emits-refresh) depth 12

  pub Emits-discover_nodes : (hosts : List Host) (k8s : K8s) → Emits Q (discover_nodes hosts k8s)
  unfolding discover_nodes
  Emits-discover_nodes hosts k8s =
      search
        (
          emits_rules, Emits-pods_by_ip, Emits-make_nodes, Emits-refresh, Emits-split_resolved,
          Emits-second_pass, Emits-name_pods,
        )
        depth 14

  Emits-alive_at : (host : Option String) → Emits Q (alive_at host)
  Emits-alive_at none = Emits-pure false
  Emits-alive_at (some host) = search (emits_rules, Emits-api_alive) depth 8

  pub Emits-is_up : (n : Node) → Emits Q (is_up n)
  unfolding is_up
  Emits-is_up n = Emits-bind (Emits-gets _) Emits-alive_at

  pub Emits-pick_control :
      (nodes : List Node) (exclude : Option Node) → Emits Q (pick_control nodes exclude)
  unfolding pick_control
  Emits-pick_control [] exclude = Emits-pure none
  Emits-pick_control (n ∷ nodes) exclude =
      let ih = Emits-pick_control nodes exclude in search (emits_rules, Emits-is_up) depth 8
