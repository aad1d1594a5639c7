-- ===== src/Convert/Kube.antt =====
-- The client of the in-cluster Kubernetes API (sample_app/convert_to_tablets.py, class `K8s`).
pub mod Ends
use scylla_k8s_example.Base.{String, ◌<>◌, Bool, true, false, Option, none, some, List, [], ◌∷◌}
use scylla_k8s_example.Base.{leb, if◌then◌else◌, string_eq, ◌==◌, ◌||◌}
use scylla_k8s_example.Base.Text.{strip, show_nat}
use scylla_k8s_example.Base.Dict.{Dict, insert}
use scylla_k8s_example.Json.{Json, null, obj, arr, nil, end, truthy}
use scylla_k8s_example.Exec.{Method, get, delete, KubeRoute, pods, pod, kube, review, Event, sent}
use scylla_k8s_example.Exec.{Reply, Response}
use scylla_k8s_example.Exec.{Exec, pure, raise, ◌>>=◌, ◌>>◌, maybe, try_catch, kube_failure, send}
use scylla_k8s_example.Exec.{fatal, request_error, Exc}
use scylla_k8s_example.Exec.Values.{
  get_key, get_or, index, iterate, or_dict, as_key, as_text, values_rules,
}
use scylla_k8s_example.Exec.Emits.{Emits, emits_rules, Emits-send, Emits-bind, Emits-pure}
use scylla_k8s_example.Convert.Api.{show_method, host_text, error_message, Emits-error_message}
use scylla_k8s_example.Convert.Api.{Quiet, quiet_rules}

pub record K8s : Type 0 where
  pub available : Bool
  pub namespace : Option String
  pub base : String

-- What `K8s.__init__` finds: two variables of the environment, and the texts of the two files of
-- the service account, `none` for a file that cannot be read.
pub record PodEnv : Type 0 where
  pub service_host : Option String
  pub service_port : Option String
  pub token : Option String
  pub namespace : Option String

abbrev unavailable : Option String → K8s
unavailable namespace = record { available = false; namespace = namespace; base = "" }

abbrev pub or_text : Option String → String → String
or_text none d = d
or_text (some s) d = if s == "" then d else s

with_files : PodEnv → String → String → K8s
with_files p token namespace =
    if or_text p.service_host "" == "" || token == ""
    then unavailable (some namespace)
    else record {
      available = true;
      namespace = some namespace;
      base =
          "https://"
          <> host_text p.service_host
          <> ":"
          <> elim p.service_port [ none ↦ "443" | some port ↦ port ];
    }

unfoldable pub connect_k8s : PodEnv → K8s
unfolding with_files
connect_k8s p = elim p.token [
  | none ↦ unavailable none
  | some token ↦ elim p.namespace [
    | none ↦ unavailable none
    | some namespace ↦ with_files p (strip token) (strip namespace)
  ]
]

abbrev kube_path : KubeRoute → String
kube_path (pods namespace) = "/api/v1/namespaces/" <> namespace <> "/pods"
kube_path (pod namespace name) = "/api/v1/namespaces/" <> namespace <> "/pods/" <> name

-- `resp.json()`, whose failure is a `RequestException` of the library.
decoded : Response → Exec Json
decoded r = maybe r.json (raise (request_error "the body is not JSON")) (λ body. pure body)

unfoldable pub request : K8s → Method → KubeRoute → Exec Json
unfolding decoded
request k method route = do
  r ← send (kube method k.base route 30)
  if leb 400 r.status
      then (do
        message ← error_message r
        raise (
            fatal (
              "kubernetes API "
              <> show_method method
              <> " "
              <> kube_path route
              <> " -> "
              <> show_nat r.status
              <> ": "
              <> message)))
      else (if r.text == "" then pure null else decoded r)

-- One item of the list of pods.
add_pod : Dict String → Json → Exec (Dict String)
add_pod found item = do
  status ← get_key item "status"
  ip ← get_key (or_dict status) "podIP"
  if truthy ip
      then (do
        metadata ← index item "metadata"
        name ← index metadata "name"
        address ← as_key ip
        pod_name ← as_text name
        maybe address (pure found) (λ a. pure (insert a pod_name found)))
      else pure found

add_pods : Dict String → List Json → Exec (Dict String)
add_pods found [] = pure found
add_pods found (item ∷ items) = add_pod found item >>= λ more. add_pods more items

-- The list of pods, or nothing if it cannot be read.
pod_list : K8s → Exec (Option Json)
pod_list k =
    try_catch kube_failure
      (do body ← request k get (pods (host_text k.namespace)); pure (some body)) (λ _. pure none)

unfoldable pub pods_by_ip : K8s → Exec (Dict String)
unfolding pod_list add_pods add_pod request
pods_by_ip k =
    if k.available
    then (do
      found ← pod_list k
      maybe found (pure [])
          λ body. do items ← get_or body "items" (arr nil); l ← iterate items; add_pods [] l)
    else pure []

unfoldable pub delete_pod : K8s → String → Exec Unit
unfolding request
delete_pod k name = do request k delete (pod (host_text k.namespace) name); pure tt

-- The body of one pod, or nothing if it cannot be read.
pod_body : K8s → String → Exec (Option Json)
pod_body k name =
    try_catch kube_failure
      (do body ← request k get (pod (host_text k.namespace) name); pure (some body))
      (λ _. pure none)

unfoldable pub pod_ip : K8s → String → Exec Json
unfolding pod_body request
pod_ip k name = do
  found ← pod_body k name
  maybe found (pure null)
      λ body. do status ← get_key body "status"; get_key (or_dict status) "podIP"

-- The answer of a review. A body that is not JSON counts as no.
allowed : Response → Exec Bool
allowed r = maybe r.json (pure false) λ body. do
  status ← get_or body "status" (obj end)
  yes_no ← get_key status "allowed"
  pure (truthy yes_no)

-- `except (requests.RequestException, ValueError)`: an exception of another kind passes.
abbrev review_failure : Exc → Bool
review_failure (request_error m) = true
review_failure _ = false

unfoldable pub can_delete_pods : K8s → Exec Bool
unfolding allowed
can_delete_pods k =
    if k.available
    then try_catch review_failure
        (do r ← send (review k.base (host_text k.namespace) 30); allowed r) (λ _. pure false)
    else pure false

module _ {Q : Event → Type 0} where
  Emits-decoded : (r : Response) → Emits Q (decoded r)
  unfolding decoded
  Emits-decoded r = search emits_rules

  pub Emits-request :
      (k : K8s) (method : Method) (route : KubeRoute)
      → ((r : Reply) → Q (sent (kube method k.base route 30) r))
      → Emits Q (request k method route)
  unfolding request
  Emits-request k method route q =
      search (emits_rules, Emits-error_message, Emits-decoded, Emits-send) depth 8

  pub Emits-delete_pod :
      (k : K8s) (name : String)
      → ((r : Reply) → Q (sent (kube delete k.base (pod (host_text k.namespace) name) 30) r))
      → Emits Q (delete_pod k name)
  unfolding delete_pod
  Emits-delete_pod k name q = Emits-bind (Emits-request k delete _ q) (λ _. Emits-pure tt)

  Emits-allowed : (r : Response) → Emits Q (allowed r)
  unfolding allowed
  Emits-allowed r = search (emits_rules, values_rules) depth 8

  Emits-add_pod : (found : Dict String) (item : Json) → Emits Q (add_pod found item)
  unfolding add_pod
  Emits-add_pod found item = search (emits_rules, values_rules) depth 14

  Emits-add_pods : (items : List Json) (found : Dict String) → Emits Q (add_pods found items)
  unfolding add_pods
  Emits-add_pods [] found = Emits-pure found
  Emits-add_pods (item ∷ items) found =
      Emits-bind (Emits-add_pod found item) (λ more. Emits-add_pods items more)

module _ {Q : Event → Type 0} (q : Quiet Q) where
  Emits-read : (k : K8s) (route : KubeRoute) → Emits Q (request k get route)
  Emits-read k route = Emits-request k get route (λ r. q.reads _ r tt)

  Emits-pod_list : (k : K8s) → Emits Q (pod_list k)
  unfolding pod_list
  Emits-pod_list k = search (emits_rules, Emits-read) depth 8

  Emits-pod_body : (k : K8s) (name : String) → Emits Q (pod_body k name)
  unfolding pod_body
  Emits-pod_body k name = search (emits_rules, Emits-read) depth 8

  pub Emits-pods_by_ip : (k : K8s) → Emits Q (pods_by_ip k)
  unfolding pods_by_ip
  Emits-pods_by_ip k = search (quiet_rules, Emits-pod_list, Emits-add_pods) depth 10

  pub Emits-pod_ip : (k : K8s) (name : String) → Emits Q (pod_ip k name)
  unfolding pod_ip
  Emits-pod_ip k name = search (quiet_rules, Emits-pod_body) depth 10

  Emits-review : (k : K8s) → Emits Q (send (review k.base (host_text k.namespace) 30))
  Emits-review k = Emits-send _ (λ r. q.reads _ r tt)

  pub Emits-can_delete_pods : (k : K8s) → Emits Q (can_delete_pods k)
  unfolding can_delete_pods
  Emits-can_delete_pods k = search (emits_rules, Emits-review, Emits-allowed) depth 10
