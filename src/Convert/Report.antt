-- ===== src/Convert/Report.antt =====
-- The report of `-S`, and the questions (sample_app/convert_to_tablets.py, `print_status`, `confirm`).
pub mod Ends
pub mod Reads
use scylla_k8s_example.Base.{ℕ, String, ◌<>◌, Bool, true, false, not, ◌&&◌, Option, none, some}
use scylla_k8s_example.Base.{
  List, [], ◌∷◌, map, if◌then◌else◌, string_eq, nat_eq, ◌==◌, keep, contains,
}
use scylla_k8s_example.Base.Text.{pad_right, strip, lower_codes}
use scylla_k8s_example.Base.Dict.{keys}
use scylla_k8s_example.Json.{Json, truthy, show}
use scylla_k8s_example.Exec.{asked, fatal, crash, only_api_error, message_of, ok}
use scylla_k8s_example.Exec.{Exec, pure, raise, ◌>>=◌, ◌>>◌, maybe, try_catch, for_each, say}
use scylla_k8s_example.Exec.Values.{get_key, iterate, or_list, or_dict}
use scylla_k8s_example.Convert.Nodes.{Node, label}
use scylla_k8s_example.Convert.Preflight.Schema.{sort_texts}
use scylla_k8s_example.Convert.Status.{Modes, modes_of, ks_status, node_phrase}

report_node : Modes → Json → Node → Exec Unit
report_node modes ks_mode n = do
  l ← label n
  say ("  " <> pad_right 52 l <> " " <> node_phrase modes n.host_id ks_mode)

report_stranger : Modes → Json → String → Exec Unit
report_stranger modes ks_mode host_id =
    say ("  " <> host_id <> " (not in the CQL topology) " <> node_phrase modes host_id ks_mode)

report_table : Json → Exec Unit
report_table table = do
  converging ← get_key table "converging"
  if truthy converging
      then (do
        name ← get_key table "table"
        current ← get_key table "current_tablet_count"
        target ← get_key table "target_pow2_tablet_count"
        say ("    " <> show name <> ": " <> show current <> " -> " <> show target <> " tablets"))
      else pure tt

report_layout : Json → Exec Unit
unfolding report_table
report_layout status = do
  tablets ← get_key status "tablets"
  convergence ← get_key (or_dict tablets) "pow2_convergence"
  if truthy convergence
      then (do
        state ← get_key convergence "status"
        converging ← get_key convergence "tables_converging"
        total ← get_key convergence "tables_total"
        say (
            "  tablet layout: "
            <> show state
            <> " ("
            <> show converging
            <> "/"
            <> show total
            <> " table(s) converging)")
        tables ← get_key convergence "tables"
        l ← iterate (or_list tables)
        for_each l report_table)
      else pure tt

-- The host IDs that the cluster lists and the topology does not, in order.
strangers : Modes → List Node → List String
strangers modes nodes =
    sort_texts (keep (λ id. not (contains id (map (λ n. n.host_id) nodes))) (keys modes))

report_status : List Node → String → Json → Exec Unit
unfolding report_node report_stranger report_layout strangers
report_status nodes keyspace status = do
  ks_mode ← get_key status "status"
  say (keyspace <> ": " <> show ks_mode)
  modes ← modes_of status
  for_each nodes (report_node modes ks_mode)
  for_each (strangers modes nodes) (report_stranger modes ks_mode)
  report_layout status

-- The status of a keyspace, or nothing after an error of the API, which is printed.
status_or_error : Node → String → Exec (Option Json)
status_or_error control keyspace =
    try_catch only_api_error
      (ks_status control keyspace (some "tablet_status") >>= λ status. pure (some status))
      (λ x. say (keyspace <> ": " <> message_of x) >>= λ _. pure none)

report_keyspace : Node → List Node → String → Exec Unit
unfolding status_or_error report_status
report_keyspace control nodes keyspace = do
  say ""
  found ← status_or_error control keyspace
  maybe found (pure tt) (report_status nodes keyspace)

unfoldable pub print_status : Node → List Node → List String → Exec Unit
unfolding report_keyspace
print_status control nodes keyspaces = for_each keyspaces (report_keyspace control nodes)

-- Whether an answer is `y` or `yes`, in any case.
unfoldable pub is_yes : List ℕ → Bool
is_yes (a ∷ []) = a == b'y'
is_yes (a ∷ b ∷ c ∷ []) = a == b'y' && (b == b'e' && c == b's')
is_yes _ = false

abbrev pub typed : Option String → Exec String
typed none = raise (crash "EOFError")
typed (some line) = pure line

-- `input(prompt)`
unfoldable pub ask : String → Exec String
unfolding pure raise
ask prompt e s =
    let line = e.input s.trace prompt in
    typed line e (record s { trace = asked prompt line ∷ s.trace })

unfoldable pub is_terminal : Exec Bool
is_terminal e s = (ok e.isatty, s)

unfoldable pub confirm : String → Bool → Exec Bool
confirm prompt assume_yes = if assume_yes then pure true else (do
  terminal ← is_terminal
  if terminal
      then (do line ← ask (prompt <> " [y/N] "); pure (is_yes (lower_codes (strip line))))
      else raise (fatal "confirmation needs a terminal (exec with -it), or pass -y"))
