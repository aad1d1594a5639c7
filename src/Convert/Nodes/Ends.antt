-- ===== src/Convert/Nodes/Ends.antt =====
-- The end of finding the nodes (sample_app/convert_to_tablets.py, `Node` to `pick_control`).
use scylla_k8s_example.Base.{String, List, [], ◌∷◌, Option, none, some, false}
use scylla_k8s_example.Base.Dict.{Dict}
use scylla_k8s_example.Json.{Json}
use scylla_k8s_example.Exec.{Env}
use scylla_k8s_example.Exec.Halts.{Halts, Halts-pure, Halts-if, halts_rules}
use scylla_k8s_example.Convert.Api.Ends.{api_ends}
use scylla_k8s_example.Convert.Kube.{K8s}
use scylla_k8s_example.Convert.Kube.Ends.{Halts-pods_by_ip}
use scylla_k8s_example.Convert.Nodes.{
  Node, Host, label, answers_as, resolve, resolve_api_host, refresh, make_nodes, split_resolved,
  append_address, learn_address, learn_addresses, second_pass, name_pods, discover_nodes, alive_at,
  is_up, is_excluded, pick_control,
}

module _ {e : Env} where
  pub Halts-label : (n : Node) → Halts e (label n)
  unfolding label
  Halts-label n = search (halts_rules) depth 10

  Halts-answers_as : (host_id address : String) → Halts e (answers_as host_id address)
  unfolding answers_as
  Halts-answers_as host_id address = search (api_ends) depth 10

  Halts-resolve : (host_id : String) (l : List String) → Halts e (resolve host_id l)
  unfolding resolve
  Halts-resolve host_id [] = Halts-pure none
  Halts-resolve host_id (address ∷ l) =
      let ih = Halts-resolve host_id l in search (api_ends, Halts-answers_as) depth 10

  pub Halts-resolve_api_host : (n : Node) → Halts e (resolve_api_host n)
  unfolding resolve_api_host
  Halts-resolve_api_host n = search (halts_rules, Halts-resolve) depth 10

  Halts-refresh : (n : Node) → Halts e (refresh n)
  unfolding refresh
  Halts-refresh n = search (halts_rules, Halts-resolve_api_host) depth 10

  Halts-make_nodes : (hosts : List Host) (nodes : Dict Node) → Halts e (make_nodes hosts nodes)
  unfolding make_nodes
  Halts-make_nodes [] nodes = Halts-pure nodes
  Halts-make_nodes (h ∷ hosts) nodes = search (halts_rules, Halts-make_nodes hosts) depth 10

  Halts-split_resolved : (l : List Node) → Halts e (split_resolved l)
  unfolding split_resolved
  Halts-split_resolved [] = Halts-pure _
  Halts-split_resolved (n ∷ l) = let ih = Halts-split_resolved l in search (halts_rules) depth 10

  Halts-append_address : (n : Node) (a : String) → Halts e (append_address n a)
  unfolding append_address
  Halts-append_address n a = search (halts_rules) depth 10

  Halts-learn_address : (nodes : Dict Node) (entry : Json) → Halts e (learn_address nodes entry)
  unfolding learn_address
  Halts-learn_address nodes entry = search (api_ends, Halts-append_address) depth 14

  Halts-learn_addresses :
      (nodes : Dict Node) (resolved : Node) → Halts e (learn_addresses nodes resolved)
  unfolding learn_addresses
  Halts-learn_addresses nodes resolved = search (api_ends, Halts-learn_address) depth 14

  Halts-second_pass :
      (nodes : Dict Node) (p : List Node × Option Node) → Halts e (second_pass nodes p)
  unfolding second_pass
  Halts-second_pass nodes (unresolved, resolved) =
      search (halts_rules, Halts-learn_addresses, Halts-refresh) depth 10

  Halts-name_pods : (pods : Dict String) (l : List Node) → Halts e (name_pods pods l)
  unfolding name_pods
  Halts-name_pods pods [] = Halts-pure []
  Halts-name_pods pods (n ∷ l) = let ih = Halts-name_pods pods l in search (halts_rules) depth 10

  pub Halts-discover_nodes : (hosts : List Host) (k8s : K8s) → Halts e (discover_nodes hosts k8s)
  unfolding discover_nodes
  Halts-discover_nodes hosts k8s =
      search
        (
          halts_rules, Halts-pods_by_ip, Halts-make_nodes, Halts-refresh, Halts-split_resolved,
          Halts-second_pass, Halts-name_pods,
        )
        depth 14

  Halts-alive_at : (host : Option String) → Halts e (alive_at host)
  Halts-alive_at none = Halts-pure false
  Halts-alive_at (some host) = search api_ends depth 8

  pub Halts-is_up : (n : Node) → Halts e (is_up n)
  unfolding is_up
  Halts-is_up n = search (halts_rules, Halts-alive_at) depth 10

  pub Halts-pick_control :
      (nodes : List Node) (exclude : Option Node) → Halts e (pick_control nodes exclude)
  unfolding pick_control
  Halts-pick_control [] exclude = Halts-pure none
  Halts-pick_control (n ∷ nodes) exclude =
      let rest = Halts-pick_control nodes exclude in
      Halts-if (is_excluded exclude n) rest (search (halts_rules, Halts-is_up) depth 8)
