-- ===== src/Convert/Api.antt =====
-- The REST API of one ScyllaDB node (sample_app/convert_to_tablets.py, `api` and `api_alive`).
pub mod Ends
pub mod Calls
use scylla_k8s_example.Base.{ℕ, String, ◌<>◌, Bool, true, false, Option, none, some}
use scylla_k8s_example.Base.{leb, if◌then◌else◌, string_eq, ◌==◌}
use scylla_k8s_example.Base.Text.{strip, show_nat}
use scylla_k8s_example.Json.{Json, null, str, show}
use scylla_k8s_example.Exec.{
  Method, get, post, put, delete, Route, Call, rest, Response, Event, sent, Reply, kube, review,
}
use scylla_k8s_example.Exec.{queried, slept, said, complained, asked, say, complain, sleep}
use scylla_k8s_example.Exec.{hostid_local, host_id_map, native_transport, drain, release_version}
use scylla_k8s_example.Exec.{
  endpoint_live, endpoint_down, enforce_rack_list, storage_mode, nodes_in,
}
use scylla_k8s_example.Exec.{keyspace_status, finalization}
use scylla_k8s_example.Exec.{
  Exec, pure, raise, gets, ◌>>=◌, ◌>>◌, maybe, try_catch, api_failure, send, api_error,
}
use scylla_k8s_example.Exec.Values.{get_or, values_rules, Static-get_or}
use scylla_k8s_example.Exec.Static.{Static, static_rules}
use scylla_k8s_example.Exec.Emits.{Anything, Emits, emits_rules, Emits-send, Emits-emit}

abbrev migrations : String
migrations = "/storage_service/vnode_tablet_migrations"

unfoldable pub path : Route → String
path hostid_local = "/storage_service/hostid/local"
path host_id_map = "/storage_service/host_id"
path native_transport = "/storage_service/native_transport"
path drain = "/storage_service/drain"
path release_version = "/storage_service/scylla_release_version"
path endpoint_live = "/gossiper/endpoint/live"
path endpoint_down = "/gossiper/endpoint/down"
path enforce_rack_list = "/v2/config/enforce_rack_list"
path storage_mode = migrations <> "/node/storage_mode"
path (nodes_in what) = "/storage_service/nodes/" <> what
path (keyspace_status keyspace) = migrations <> "/keyspaces/" <> keyspace
path (finalization keyspace) = migrations <> "/keyspaces/" <> keyspace <> "/finalization"

abbrev pub show_method : Method → String
show_method get = "GET"
show_method post = "POST"
show_method put = "PUT"
show_method delete = "DELETE"

-- An address in a URL, where Python writes a missing one as `None`.
abbrev pub host_text : Option String → String
host_text none = "None"
host_text (some host) = host

-- The text of an error answer: its field `message`, if its body is JSON.
unfoldable pub error_message : Response → Exec String
error_message r =
    maybe r.json (pure (strip r.text))
      λ body. do message ← get_or body "message" (str (strip r.text)); pure (show message)

-- The body of an answer, decoded if it is JSON.
unfoldable pub body_of : Response → Json
body_of r =
    if r.text == "" then null else elim r.json [ none ↦ str (strip r.text) | some body ↦ body ]

unfoldable pub answer : Method → Route → Response → Exec Json
unfolding error_message body_of
answer method route r =
    if leb 400 r.status
    then (do
      message ← error_message r
      raise (
          api_error (
            show_method method
            <> " "
            <> path route
            <> " -> "
            <> show_nat r.status
            <> ": "
            <> message)))
    else pure (body_of r)

unfoldable pub api : Method → Option String → Route → Option (String × String) → ℕ → Exec Json
unfolding answer
api method host route params timeout = do
  port ← gets (λ s. s.api_port)
  r ← send (rest method (host_text host) port route params timeout)
  answer method route r

-- `api("GET", ...)` with no parameters and the default timeout.
abbrev pub api_get : Option String → Route → Exec Json
api_get host route = api get host route none 30

unfoldable pub api_alive : String → Exec Bool
api_alive host =
    try_catch api_failure (do api get (some host) hostid_local none 5; pure true) (λ _. pure false)

module _ {Q : Event → Type 0} where
  pub Emits-error_message : (r : Response) → Emits Q (error_message r)
  unfolding error_message
  Emits-error_message r = search (emits_rules, values_rules) depth 8

  Emits-answer : (method : Method) (route : Route) (r : Response) → Emits Q (answer method route r)
  unfolding answer
  Emits-answer method route r = search (emits_rules, Emits-error_message) depth 8

  pub Emits-api :
      (method : Method) (host : Option String) (route : Route) (params : Option (String × String))
      (timeout : ℕ)
      → ((port : ℕ) (r : Reply)
          → Q (sent (rest method (host_text host) port route params timeout) r))
      → Emits Q (api method host route params timeout)
  unfolding api
  Emits-api method host route params timeout q = search (emits_rules, Emits-answer, Emits-send)

-- The calls that change nothing: `GET`, and asking what this account may do.
abbrev pub IsRead : Call → Type 0
IsRead (rest get host port route params timeout) = Unit
IsRead (rest method host port route params timeout) = ⊥
IsRead (kube get base route timeout) = Unit
IsRead (kube method base route timeout) = ⊥
IsRead (review base namespace timeout) = Unit

-- The events of a step that only looks: reads, output, sleeping and questions.
pub record Quiet (Q : Event → Type 0) : Type 0 where
  pub reads : (c : Call) (r : Reply) → IsRead c → Q (sent c r)
  pub queries : (keyspace : String) → Q (queried keyspace)
  pub sleeps : (n : ℕ) → Q (slept n)
  pub lines : (line : String) → Q (said line)
  pub complaints : (line : String) → Q (complained line)
  pub questions : (prompt : String) (line : Option String) → Q (asked prompt line)

module _ {Q : Event → Type 0} (q : Quiet Q) where
  pub Emits-api_get :
      (host : Option String) (route : Route) (params : Option (String × String)) (timeout : ℕ)
      → Emits Q (api get host route params timeout)
  Emits-api_get host route params timeout =
      Emits-api get host route params timeout (λ port r. q.reads _ r tt)

  pub Emits-api_alive : (host : String) → Emits Q (api_alive host)
  unfolding api_alive
  Emits-api_alive host = search (emits_rules, Emits-api_get) depth 8

  pub Emits-say : (line : String) → Emits Q (say line)
  Emits-say line = Emits-emit _ (q.lines line)

  pub Emits-complain : (line : String) → Emits Q (complain line)
  Emits-complain line = Emits-emit _ (q.complaints line)

  pub Emits-sleep : (n : ℕ) → Emits Q (sleep n)
  Emits-sleep n = Emits-emit _ (q.sleeps n)

pub ruleset quiet_rules = (
  emits_rules, values_rules, Emits-api_get, Emits-api_alive, Emits-say, Emits-complain, Emits-sleep,
)

Static-error_message : (r : Response) → Static (error_message r)
unfolding error_message
Static-error_message r = search (static_rules, Static-get_or) depth 8

pub Static-answer :
    (method : Method) (route : Route) (r : Response) → Static (answer method route r)
unfolding answer
Static-answer method route r = search (static_rules, Static-error_message) depth 8

pub Anything-Quiet : Quiet Anything
Anything-Quiet = record {
  reads = λ c r h. tt;
  queries = λ keyspace. tt;
  sleeps = λ n. tt;
  lines = λ line. tt;
  complaints = λ line. tt;
  questions = λ prompt line. tt;
}
