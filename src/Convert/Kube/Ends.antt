-- ===== src/Convert/Kube/Ends.antt =====
-- The end of a call of the Kubernetes API (sample_app/convert_to_tablets.py, class `K8s`).
use scylla_k8s_example.Base.{String, List, [], ◌∷◌}
use scylla_k8s_example.Base.Dict.{Dict}
use scylla_k8s_example.Json.{Json}
use scylla_k8s_example.Exec.{Env, Method, Response}
use scylla_k8s_example.Exec.Halts.{Halts, Halts-pure}
use scylla_k8s_example.Convert.Api.Ends.{Halts-error_message, api_ends}
use scylla_k8s_example.Exec.{KubeRoute}
use scylla_k8s_example.Convert.Kube.{
  K8s, decoded, request, add_pod, add_pods, pod_list, pods_by_ip, delete_pod, pod_body, pod_ip,
  allowed, can_delete_pods,
}

module _ {e : Env} where
  Halts-decoded : (r : Response) → Halts e (decoded r)
  unfolding decoded
  Halts-decoded r = search (api_ends) depth 10

  Halts-request : (k : K8s) (method : Method) (route : KubeRoute) → Halts e (request k method route)
  unfolding request
  Halts-request k method route = search (api_ends, Halts-error_message, Halts-decoded) depth 10

  Halts-add_pod : (found : Dict String) (item : Json) → Halts e (add_pod found item)
  unfolding add_pod
  Halts-add_pod found item = search (api_ends) depth 14

  Halts-add_pods : (items : List Json) (found : Dict String) → Halts e (add_pods found items)
  unfolding add_pods
  Halts-add_pods [] found = Halts-pure found
  Halts-add_pods (item ∷ items) found =
      search (api_ends, Halts-add_pod, Halts-add_pods items) depth 10

  Halts-pod_list : (k : K8s) → Halts e (pod_list k)
  unfolding pod_list
  Halts-pod_list k = search (api_ends, Halts-request) depth 10

  pub Halts-pods_by_ip : (k : K8s) → Halts e (pods_by_ip k)
  unfolding pods_by_ip
  Halts-pods_by_ip k = search (api_ends, Halts-pod_list, Halts-add_pods) depth 10

  pub Halts-delete_pod : (k : K8s) (name : String) → Halts e (delete_pod k name)
  unfolding delete_pod
  Halts-delete_pod k name = search (api_ends, Halts-request) depth 10

  Halts-pod_body : (k : K8s) (name : String) → Halts e (pod_body k name)
  unfolding pod_body
  Halts-pod_body k name = search (api_ends, Halts-request) depth 10

  pub Halts-pod_ip : (k : K8s) (name : String) → Halts e (pod_ip k name)
  unfolding pod_ip
  Halts-pod_ip k name = search (api_ends, Halts-pod_body) depth 10

  Halts-allowed : (r : Response) → Halts e (allowed r)
  unfolding allowed
  Halts-allowed r = search (api_ends) depth 10

  pub Halts-can_delete_pods : (k : K8s) → Halts e (can_delete_pods k)
  unfolding can_delete_pods
  Halts-can_delete_pods k = search (api_ends, Halts-allowed) depth 10
