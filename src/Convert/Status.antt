-- ===== src/Convert/Status.antt =====
-- The state of the migration as the cluster reports it (sample_app/convert_to_tablets.py,
-- `ks_status`, `ks_state`, `node_modes`, `node_phrase`, `set_storage_mode`, `wait_node_mode`).
pub mod Ends
pub mod Reads
pub mod Evidence
pub mod States
use scylla_k8s_example.Base.{
  ℕ, zero, suc, ◌+◌, ◌*◌, ◌^◌, String, ◌<>◌, Bool, true, false, Option, none, some,
}
use scylla_k8s_example.Base.{List, [], ◌∷◌, if◌then◌else◌, string_eq, ◌==◌, not, ◌||◌, leb, all}
use scylla_k8s_example.Base.Text.{show_nat}
use scylla_k8s_example.Base.Dict.{Dict, insert, lookup_or, lookup, values}
use scylla_k8s_example.Json.{Json, truthy, show, equal}
use scylla_k8s_example.Exec.{get, put, keyspace_status, storage_mode}
use scylla_k8s_example.Exec.{
  Exec, pure, gets, ◌>>=◌, ◌>>◌, maybe, for_each, say, complain, sleep, clock,
}
use scylla_k8s_example.Exec.{out_of_fuel}
use scylla_k8s_example.Exec.Values.{get_key, index, iterate, or_list, as_key}
use scylla_k8s_example.Convert.Api.{api}
use scylla_k8s_example.Convert.Nodes.{Node}

-- The address at which the program calls a node now.
abbrev pub host_of : Node → Exec (Option String)
host_of n = gets (λ s. s.api_host n.host_id)

unfoldable pub ks_status : Node → String → Option String → Exec Json
ks_status n keyspace include = do
  host ← host_of n
  api get host (keyspace_status keyspace)
      (elim include [ none ↦ none | some i ↦ some ("include", i) ]) 30

unfoldable pub ks_state : Node → String → Exec Json
ks_state n keyspace = ks_status n keyspace none >>= λ status. get_key status "status"

-- The current and the intended mode, by host ID.
abbrev pub Modes : Type 0
Modes = Dict (Json × Json)

unfoldable pub collect_modes : List Json → Modes → Exec Modes
collect_modes [] modes = pure modes
collect_modes (entry ∷ entries) modes = do
  host_id ← index entry "host_id"
  current ← get_key entry "current_mode"
  intended ← get_key entry "intended_mode"
  key ← as_key host_id
  collect_modes entries (elim key [ none ↦ modes | some id ↦ insert id (current, intended) modes ])

-- The modes that a status answer lists.
unfoldable pub modes_of : Json → Exec Modes
modes_of status = do
  nodes ← get_key status "nodes"
  entries ← iterate (or_list nodes)
  collect_modes entries []

unfoldable pub node_modes : Node → String → Exec (Json × Modes)
node_modes n keyspace = do
  status ← ks_status n keyspace none
  modes ← modes_of status
  ks_mode ← get_key status "status"
  pure (ks_mode, modes)

phrase_of : Json → Json → String
phrase_of current intended =
    if not (truthy current) || not (truthy intended)
    then "unknown"
    else if equal current intended
    then "uses " <> show current
    else "migrating to " <> show intended

unfoldable pub node_phrase : Modes → String → Json → String
unfolding phrase_of
node_phrase modes host_id ks_mode =
    let (current, intended) = lookup_or (ks_mode, ks_mode) host_id modes in
    phrase_of current intended

-- `node_modes` and `node_phrase`, as the callers put them together.
unfoldable pub phrase_in : Node → Node → String → Exec String
phrase_in control n keyspace =
    node_modes control keyspace >>= λ (ks_mode, modes). pure (node_phrase modes n.host_id ks_mode)

unfoldable pub set_storage_mode : Node → String → Exec Unit
set_storage_mode n mode = do
  host ← host_of n
  api put host storage_mode (some ("intended_mode", mode)) 30
  pure tt

abbrev pub poll_interval : ℕ
poll_interval = 15

-- One second of `time.monotonic()`.
abbrev pub second : ℕ
second = 10 ^ 9

-- The phrase of one node in each keyspace.
unfoldable pub phrases : Node → Node → List String → Dict String → Exec (Dict String)
phrases control n [] found = pure found
phrases control n (keyspace ∷ keyspaces) found = do
  phrase ← phrase_in control n keyspace
  phrases control n keyspaces (insert keyspace phrase found)

abbrev pub all_use : String → Dict String → Bool
all_use want found = all (λ phrase. phrase == "uses " <> want) (values found)

unfoldable pub timed_out_line : ℕ → String × String → Exec Unit
timed_out_line timeout (keyspace, phrase) =
    complain (
      "  timed out after " <> show_nat timeout <> "s with " <> keyspace <> " at '" <> phrase <> "'")

unfoldable pub progress_line : String × String → Exec Unit
progress_line (keyspace, phrase) = say ("  " <> keyspace <> ": " <> phrase)

-- The body of the `while True` loop, with the fuel that is left.
unfoldable pub poll_mode : ℕ → Node → Node → List String → String → ℕ → ℕ → Exec Bool
poll_mode zero control n keyspaces want timeout deadline = out_of_fuel
poll_mode (suc fuel) control n keyspaces want timeout deadline =
    phrases control n keyspaces [] >>= λ found.
    if all_use want found
    then pure true
    else (clock >>= λ now.
        if leb deadline now
        then (for_each found (timed_out_line timeout) >>= λ _. pure false)
        else (for_each found progress_line >>= λ _.
            sleep poll_interval >>= λ _. poll_mode fuel control n keyspaces want timeout deadline))

-- Each round sleeps, so `timeout + 1` rounds reach the deadline.
unfoldable pub wait_node_mode : Node → Node → List String → String → ℕ → Exec Bool
wait_node_mode control n keyspaces want timeout = do
  start ← clock
  poll_mode (suc timeout) control n keyspaces want timeout (start + timeout * second)
