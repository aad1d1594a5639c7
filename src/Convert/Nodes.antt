-- ===== src/Convert/Nodes.antt =====
-- The nodes of the cluster and the address of each one's REST API
-- (sample_app/convert_to_tablets.py, `Node`, `resolve_api_host`, `discover_nodes`, `pick_control`).
-- A `Node` of the source is its constant fields here, and the two that change are in the state,
-- under its host ID: `discover_nodes` keeps one node for each ID.
pub mod Ends
mod Sort
pub mod Choice
pub mod Reads
pub use Sort.{Node, node_le, insert_node, sort_nodes}
use scylla_k8s_example.Base.{
  ℕ, String, ◌<>◌, Bool, true, false, Option, none, some, List, [], ◌∷◌, ◌++◌,
}
use scylla_k8s_example.Base.{map, if◌then◌else◌, string_eq, ◌==◌, not, ◌&&◌, contains, is_empty}
use scylla_k8s_example.Base.Text.{take_text}
use scylla_k8s_example.Base.Dict.{Dict, insert, lookup, values}
use scylla_k8s_example.Json.{Json, is_text}
use scylla_k8s_example.Exec.{Event, hostid_local, host_id_map, get}
use scylla_k8s_example.Exec.{Exec, pure, gets, ◌>>=◌, ◌>>◌, maybe, try_catch, api_failure, for_each}
use scylla_k8s_example.Exec.{set_api_host, set_addresses}
use scylla_k8s_example.Exec.Values.{index, iterate, as_key, as_text}
use scylla_k8s_example.Exec.Emits.{Emits}
use scylla_k8s_example.Convert.Api.{api, api_get, api_alive, Quiet, quiet_rules}
use scylla_k8s_example.Convert.Kube.{K8s, pods_by_ip, or_text, Emits-pods_by_ip}

-- What the driver's metadata holds of one node.
pub record Host : Type 0 where
  pub host_id : String
  pub broadcast_address : Option String
  pub address : Option String
  pub listen_address : Option String
  pub datacenter : Option String
  pub rack : Option String

first_address : List String → String
first_address [] = "?"
first_address (a ∷ as_) = a

-- `Node.label`
unfoldable pub label : Node → Exec String
unfolding first_address
label n = do
  host ← gets (λ s. s.api_host n.host_id)
  addresses ← gets (λ s. s.addresses n.host_id)
  let who = or_text n.pod (or_text host (first_address addresses))
  pure (n.dc <> "/" <> n.rack <> " " <> who <> " (" <> take_text 8 n.host_id <> ")")

-- Whether the REST API at an address reports this host ID.
unfoldable pub answers_as : String → String → Exec Bool
answers_as host_id address =
    try_catch api_failure
      (do id ← api get (some address) hostid_local none 5; pure (is_text id host_id))
      (λ _. pure false)

-- The first of the addresses that answers with the host ID.
unfoldable pub resolve : String → List String → Exec (Option String)
resolve host_id [] = pure none
resolve host_id (address ∷ rest) =
    answers_as host_id address >>= λ b. if b then pure (some address) else resolve host_id rest

unfoldable pub resolve_api_host : Node → Exec (Option String)
unfolding resolve
resolve_api_host n = gets (λ s. s.addresses n.host_id) >>= λ l. resolve n.host_id l

-- `node.api_host = resolve_api_host(node)`
unfoldable pub refresh : Node → Exec Unit
refresh n = resolve_api_host n >>= λ host. set_api_host n.host_id host

-- The distinct addresses among the three that the driver knows.
add_address : List String → Option String → List String
add_address l none = l
add_address l (some a) = if a == "" then l else if contains a l then l else l ++ (a ∷ [])

unfoldable pub candidates : Host → List String
unfolding add_address
candidates h =
    add_address (add_address (add_address [] h.broadcast_address) h.address) h.listen_address

node_of : Host → Node
node_of h = record {
  host_id = h.host_id;
  dc = or_text h.datacenter "?";
  rack = or_text h.rack "?";
  pod = none;
}

-- The loop over `all_hosts()`.
unfoldable pub make_nodes : List Host → Dict Node → Exec (Dict Node)
unfolding node_of candidates
make_nodes [] nodes = pure nodes
make_nodes (h ∷ hosts) nodes = do
  set_addresses h.host_id (candidates h)
  set_api_host h.host_id none
  make_nodes hosts (insert h.host_id (node_of h) nodes)

abbrev pub has_host : Option String → Bool
has_host host = not (or_text host "" == "")

-- The nodes with no API host, and the first with one.
unfoldable pub split_resolved : List Node → Exec (List Node × Option Node)
split_resolved [] = pure ([], none)
split_resolved (n ∷ nodes) = do
  host ← gets (λ s. s.api_host n.host_id)
  rest ← split_resolved nodes
  pure (if has_host host then (rest.0, some n) else (n ∷ rest.0, rest.1))

append_address : Node → String → Exec Unit
append_address n a = do
  l ← gets (λ s. s.addresses n.host_id)
  if contains a l then pure tt else set_addresses n.host_id (l ++ (a ∷ []))

-- One entry of the map of host IDs of a node that did answer.
learn_address : Dict Node → Json → Exec Unit
unfolding append_address
learn_address nodes entry = do
  value ← index entry "value"
  id ← as_key value
  maybe id (pure tt) λ i. maybe (lookup i nodes) (pure tt) λ n. do
    host ← gets (λ s. s.api_host n.host_id)
    if has_host host
        then pure tt
        else (do key ← index entry "key"; a ← as_text key; append_address n a)

unfoldable pub learn_addresses : Dict Node → Node → Exec Unit
unfolding learn_address
learn_addresses nodes resolved =
    try_catch api_failure
      (do
        host ← gets (λ s. s.api_host resolved.host_id)
        entries ← api_get host host_id_map
        l ← iterate entries
        for_each l (learn_address nodes))
      (λ _. pure tt)

-- The second pass, for the nodes that are still unresolved.
unfoldable pub second_pass : Dict Node → List Node × Option Node → Exec Unit
second_pass nodes (unresolved, resolved) = maybe resolved (pure tt) λ r.
    if is_empty unresolved
    then pure tt
    else (do learn_addresses nodes r; for_each unresolved refresh)

-- The pod at the first address that has one.
find_pod : Dict String → List String → Option String
find_pod pods [] = none
find_pod pods (a ∷ l) = elim (lookup a pods) [ none ↦ find_pod pods l | some p ↦ some p ]

unfoldable pub name_pods : Dict String → List Node → Exec (List Node)
unfolding find_pod
name_pods pods [] = pure []
name_pods pods (n ∷ nodes) = do
  l ← gets (λ s. s.addresses n.host_id)
  rest ← name_pods pods nodes
  pure (record n { pod = find_pod pods l } ∷ rest)

unfoldable pub discover_nodes : List Host → K8s → Exec (List Node)
discover_nodes hosts k8s = do
  pods ← pods_by_ip k8s
  nodes ← make_nodes hosts []
  for_each (values nodes) refresh
  found ← split_resolved (values nodes)
  second_pass nodes found
  named ← name_pods pods (values nodes)
  pure (sort_nodes named)

-- `exclude is not None and node.host_id == exclude.host_id`
abbrev is_excluded : Option Node → Node → Bool
is_excluded none n = false
is_excluded (some x) n = n.host_id == x.host_id

abbrev alive_at : Option String → Exec Bool
alive_at none = pure false
alive_at (some host) = if host == "" then pure false else api_alive host

-- `node.api_host and api_alive(node.api_host)`
unfoldable pub is_up : Node → Exec Bool
is_up n = gets (λ s. s.api_host n.host_id) >>= alive_at

unfoldable pub pick_control : List Node → Option Node → Exec (Option Node)
pick_control [] exclude = pure none
pick_control (n ∷ nodes) exclude =
    let rest = pick_control nodes exclude in
    if is_excluded exclude n then rest else (is_up n >>= λ b. if b then pure (some n) else rest)
