-- ===== src/Exec.antt =====
-- What a run of sample_app/convert_to_tablets.py does: calls to the cluster, output, sleeping and
-- questions, recorded in order, with the exceptions that end a step early. The world outside is a
-- parameter `Env`, which answers each call from the whole history before it.
pub mod Emits
pub mod Values
pub mod Steps
pub mod Static
pub mod Halts
pub mod Ends
pub mod Guarded
use scylla_k8s_example.Base.{ℕ, zero, suc, ◌+◌, ◌*◌, ◌≤◌, ◌<◌, ◌≡◌, refl, Bool, true, false}
use scylla_k8s_example.Base.{String, ◌<>◌, List, [], ◌∷◌, Option, none, some, string_eq, ◌==◌}
use scylla_k8s_example.Base.{if◌then◌else◌}
use scylla_k8s_example.Base.Dict.{Dict}
use scylla_k8s_example.Json.{Json}

-- `Fatal`, `ApiError`, `requests.RequestException`, and any other exception of Python.
pub data Exc : Type 0 where
  fatal : String → Exc
  api_error : String → Exc
  request_error : String → Exc
  crash : String → Exc

-- `diverged` stands for a loop that has not ended within its fuel.
pub data Result {ℓ} (A : Type ℓ) : Type ℓ where
  ok : A → Result A
  raised : Exc → Result A
  diverged : Result A

pub data Method : Type 0 where
  get post put delete : Method

-- The REST endpoints of ScyllaDB that the program names.
pub data Route : Type 0 where
  hostid_local host_id_map native_transport drain release_version : Route
  endpoint_live endpoint_down enforce_rack_list storage_mode : Route
  nodes_in : String → Route
  keyspace_status : String → Route
  finalization : String → Route

-- The paths of the Kubernetes API: the pods of a namespace, and one pod.
pub data KubeRoute : Type 0 where
  pods : String → KubeRoute
  pod : String → String → KubeRoute

pub data Call : Type 0 where
  rest : Method → String → ℕ → Route → Option (String × String) → ℕ → Call
  kube : Method → String → KubeRoute → ℕ → Call
  review : String → String → ℕ → Call

-- `json` is `none` where `resp.json()` raises.
pub record Response : Type 0 where
  pub status : ℕ
  pub text : String
  pub json : Option Json

pub data Reply : Type 0 where
  response : Response → Reply
  unreachable : String → Reply

pub data Event : Type 0 where
  sent : Call → Reply → Event
  queried : String → Event
  slept : ℕ → Event
  said : String → Event
  complained : String → Event
  asked : String → Option String → Event
  shut_down : Event

-- The world outside. Each function reads the events so far, the latest first.
pub record Env : Type 0 where
  pub reply : List Event → Call → Reply
  -- `none` is an exception of the driver, `some none` a query without a row
  pub replication : List Event → String → Option (Option (Dict String))
  -- `time.monotonic()` in nanoseconds
  pub now : List Event → ℕ
  pub isatty : Bool
  -- `none` is the end of the input
  pub input : List Event → String → Option String

-- `api_host` and `addresses` are the fields of `Node` that change, by host ID.
pub record St : Type 0 where
  pub trace : List Event
  pub api_port : ℕ
  pub addresses : String → List String
  pub api_host : String → Option String

abbrev pub Exec : Type 0 → Type 0
Exec A = Env → St → Result A × St

module _ {A : Type 0} where
  unfoldable pub pure : A → Exec A
  pure a e s = (ok a, s)

  unfoldable pub raise : Exc → Exec A
  raise x e s = (raised x, s)

  unfoldable pub out_of_fuel : Exec A
  out_of_fuel e s = (diverged, s)

  unfoldable pub gets : (St → A) → Exec A
  gets f e s = (ok (f s), s)

abbrev pub update : {A : Type 0} → String → A → (String → A) → String → A
update id a f j = if j == id then a else f j

-- `node.api_host = ...` and the changes of `node.addresses`
unfoldable pub set_api_host : String → Option String → Exec Unit
set_api_host id host e s = (ok tt, record s { api_host = update id host s.api_host })

unfoldable pub set_addresses : String → List String → Exec Unit
set_addresses id l e s = (ok tt, record s { addresses = update id l s.addresses })

module _ {A B : Type 0} where
  abbrev pub continue : Result A → (A → Exec B) → Exec B
  continue (ok a) f = f a
  continue (raised x) f = raise x
  continue diverged f = out_of_fuel

  infixl 10 ◌>>=◌ ◌>>◌
  unfoldable pub ◌>>=◌ : Exec A → (A → Exec B) → Exec B
  unfolding raise out_of_fuel
  ◌>>=◌ m f e s = let (r, s') = m e s in continue r f e s'

  abbrev pub ◌>>◌ : Exec A → Exec B → Exec B
  m >> n = m >>= λ _. n

module _ {A : Type 0} where
  abbrev pub handle : Result A → (Exc → Bool) → (Exc → Exec A) → Exec A
  handle (ok a) catches h = pure a
  handle (raised x) catches h = if catches x then h x else raise x
  handle diverged catches h = out_of_fuel

  -- `try: m`, `except` with the exceptions that `catches` accepts. What `m` did stays done.
  unfoldable pub try_catch : (Exc → Bool) → Exec A → (Exc → Exec A) → Exec A
  unfolding pure raise out_of_fuel
  try_catch catches m h e s = let (r, s') = m e s in handle r catches h e s'

  unfoldable pub maybe : {B : Type 0} → Option B → Exec A → (B → Exec A) → Exec A
  maybe none n f = n
  maybe (some b) n f = f b

-- `except (ApiError, requests.RequestException)`
abbrev pub api_failure : Exc → Bool
api_failure (api_error m) = true
api_failure (request_error m) = true
api_failure _ = false

-- `except ApiError`
abbrev pub only_api_error : Exc → Bool
only_api_error (api_error m) = true
only_api_error _ = false

-- `except (Fatal, requests.RequestException)`
abbrev pub kube_failure : Exc → Bool
kube_failure (fatal m) = true
kube_failure (request_error m) = true
kube_failure _ = false

abbrev pub message_of : Exc → String
message_of (fatal m) = m
message_of (api_error m) = m
message_of (request_error m) = m
message_of (crash m) = m

unfoldable pub emit : Event → Exec Unit
emit ev e s = (ok tt, record s { trace = ev ∷ s.trace })

-- `print(...)`, to the output and to `sys.stderr`, and `time.sleep(n)`.
abbrev pub say : String → Exec Unit
say line = emit (said line)

abbrev pub complain : String → Exec Unit
complain line = emit (complained line)

abbrev pub sleep : ℕ → Exec Unit
sleep n = emit (slept n)

unfoldable pub clock : Exec ℕ
clock e s = (ok (e.now s.trace), s)

abbrev pub received : Reply → Exec Response
received (response r) = pure r
received (unreachable m) = raise (request_error m)

-- `requests.request(...)`: the answer, or a `RequestException`.
unfoldable pub send : Call → Exec Response
unfolding pure raise
send c e s = let r = e.reply s.trace c in received r e (record s { trace = sent c r ∷ s.trace })

-- `for x in xs: body(x)`
unfoldable pub for_each : {A : Type 0} → List A → (A → Exec Unit) → Exec Unit
for_each [] body = pure tt
for_each (x ∷ xs) body = body x >>= λ _. for_each xs body
