-- ===== src/Examples/Cluster.antt =====
-- A cluster of two nodes and one keyspace for sample_app/convert_to_tablets.py. A node is unreachable
-- to the first call after its pod is deleted, and uses tablets from then on.
use scylla_k8s_example.Base.{
  ℕ, ◌+◌, ◌*◌, String, Bool, true, false, ◌||◌, none, some, List, [], ◌∷◌,
}
use scylla_k8s_example.Base.{if◌then◌else◌, string_eq, ◌==◌}
use scylla_k8s_example.Base.Dict.{Dict}
use scylla_k8s_example.Json.{Json, null, bool, str, arr, obj, nil, cons, end, field}
use scylla_k8s_example.Exec.{Event, sent, slept, Call, rest, kube, review}
use scylla_k8s_example.Exec.{get, pods, post, delete, Reply, response, unreachable, Env, St, pod}
use scylla_k8s_example.Exec.{
  hostid_local, native_transport, endpoint_live, keyspace_status, finalization,
}
use scylla_k8s_example.Exec.{release_version, Route}
use scylla_k8s_example.Convert.Kube.{K8s, PodEnv}
use scylla_k8s_example.Convert.Main.{Metadata, Access}
use scylla_k8s_example.Convert.Nodes.{Node, Host}
use scylla_k8s_example.Convert.Restart.{Options, k8s}
use scylla_k8s_example.Convert.Preflight.Schema.{Keyspace, Table}

abbrev pub node_a : Node
node_a = record { host_id = "a"; dc = "dc1"; rack = "r1"; pod = some "pod-a" }

abbrev pub node_b : Node
node_b = record { host_id = "b"; dc = "dc1"; rack = "r2"; pod = some "pod-b" }

abbrev pub both : List Node
both = node_a ∷ node_b ∷ []

abbrev pub opts : Options
opts = record {
  keyspaces = "ks" ∷ [];
  status = false;
  rollback = false;
  restart = k8s;
  api_port = 10000;
  state_timeout = 60;
  node_timeout = 60;
  force = false;
  yes_ = false;
  dc = "dc1";
}

abbrev pub client : K8s
client = record { available = true; namespace = some "scylla"; base = "https://k8s" }

abbrev users : Table
users = record {
  indexes = [];
  column_types = "text" ∷ [];
  compaction = some (("class", "IncrementalCompactionStrategy") ∷ []);
  extensions = none;
}

abbrev pub schema : Dict Keyspace
schema = ("ks", record { tables = ("t", users) ∷ []; views = [] }) ∷ []

-- Whether the keyspace has been started and finalized, and the pod deleted.
abbrev started : List Event → Bool
started [] = false
started (sent (rest post host port (keyspace_status keyspace) params timeout) r ∷ t) = true
started (ev ∷ t) = started t

abbrev finalized : List Event → Bool
finalized [] = false
finalized (sent (rest post host port (finalization keyspace) params timeout) r ∷ t) = true
finalized (ev ∷ t) = finalized t

abbrev restarted : String → List Event → Bool
restarted name [] = false
restarted name (sent (kube delete base (pod namespace p) timeout) r ∷ t) =
    p == name || restarted name t
restarted name (ev ∷ t) = restarted name t

-- Whether a pod was deleted and nothing was called since.
abbrev just_deleted : List Event → Bool
just_deleted [] = false
just_deleted (sent (kube delete base route timeout) r ∷ t) = true
just_deleted (sent c r ∷ t) = false
just_deleted (ev ∷ t) = just_deleted t

abbrev mode_of : String → List Event → Json
mode_of name t = str (if restarted name t then "tablets" else "vnodes")

abbrev node_entry : String → Json → Json
node_entry id mode =
    obj (field "host_id" (str id) (field "current_mode" mode (field "intended_mode" mode end)))

abbrev state_of : List Event → Json
state_of t =
    str (if finalized t then "tablets" else if started t then "migrating_to_tablets" else "vnodes")

abbrev status_body : List Event → Json
status_body t = obj (
    field "status" (state_of t) (
      field "nodes"
        (arr (
          cons (node_entry "a" (mode_of "pod-a" t))
            (cons (node_entry "b" (mode_of "pod-b" t)) nil)))
        end))

abbrev answer_to : List Event → String → Route → Json
answer_to t host hostid_local = str (if host == "10.0.0.1" then "a" else "b")
answer_to t host native_transport = bool true
answer_to t host endpoint_live = arr (cons (str "10.0.0.1") (cons (str "10.0.0.2") nil))
answer_to t host release_version = str "2026.3.0"
answer_to t host (keyspace_status keyspace) = status_body t
answer_to t host route = arr nil

abbrev fine : Json → Reply
fine body = response (record { status = 200; text = "x"; json = some body })

abbrev pod_item : String → String → Json
pod_item ip name = obj (
    field "status" (obj (field "podIP" (str ip) end))
      (field "metadata" (obj (field "name" (str name) end)) end))

abbrev reply_to : List Event → Call → Reply
reply_to t (rest get host port route params timeout) =
    if just_deleted t then unreachable "refused" else fine (answer_to t host route)
reply_to t (rest method host port route params timeout) = fine null
reply_to t (kube get base (pods namespace) timeout) = fine (
    obj (
      field "items"
        (arr (cons (pod_item "10.0.0.1" "pod-a") (cons (pod_item "10.0.0.2" "pod-b") nil))) end))
reply_to t (kube method base route timeout) = fine (obj end)
reply_to t (review base namespace timeout) =
    fine (obj (field "status" (obj (field "allowed" (bool true) end)) end))

-- The seconds slept, and one nanosecond per event.
abbrev pub time_of : List Event → ℕ
time_of [] = 0
time_of (slept n ∷ t) = n * 1000000000 + time_of t
time_of (ev ∷ t) = 1 + time_of t

abbrev pub env : Env
env = record {
  reply = reply_to;
  replication =
      λ t keyspace. some (some (("class", "NetworkTopologyStrategy") ∷ ("dc1", "2") ∷ []));
  now = time_of;
  isatty = true;
  input = λ t prompt. some "y";
}

abbrev pub start : St
start = record {
  trace = [];
  api_port = 10000;
  addresses = λ id. (if id == "a" then "10.0.0.1" else "10.0.0.2") ∷ [];
  api_host = λ id. some (if id == "a" then "10.0.0.1" else "10.0.0.2");
}

abbrev host_at : String → String → String → Host
host_at id ip rack = record {
  host_id = id;
  broadcast_address = some ip;
  address = some ip;
  listen_address = none;
  datacenter = some "dc1";
  rack = some rack;
}

abbrev pub metadata : Metadata
metadata = record {
  cluster_name = some "demo";
  hosts = host_at "b" "10.0.0.2" "r2" ∷ host_at "a" "10.0.0.1" "r1" ∷ [];
  schema = schema;
}

abbrev pub in_pod : PodEnv
in_pod = record {
  service_host = some "10.96.0.1";
  service_port = none;
  token = some "token";
  namespace = some "scylla";
}

abbrev pub access : Access
access = record {
  hosts = "scylla-client";
  username = "cassandra";
  password = "cassandra";
  tls = false;
  mtls = false;
}

-- Before the nodes are known.
abbrev pub blank : St
blank = record { trace = []; api_port = 0; addresses = λ id. []; api_host = λ id. none }
