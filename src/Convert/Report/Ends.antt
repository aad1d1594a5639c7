-- ===== src/Convert/Report/Ends.antt =====
-- The end of the report and of the questions (sample_app/convert_to_tablets.py, `print_status`, `confirm`).
use scylla_k8s_example.Base.{String, List, Option, none, some, Bool}
use scylla_k8s_example.Json.{Json}
use scylla_k8s_example.Exec.{Env, pure}
use scylla_k8s_example.Exec.Halts.{Halts, Halts-pure, Halts-raise, halts_rules}
use scylla_k8s_example.Convert.Api.Ends.{api_ends}
use scylla_k8s_example.Convert.Nodes.{Node}
use scylla_k8s_example.Convert.Nodes.Ends.{Halts-label}
use scylla_k8s_example.Convert.Status.{Modes}
use scylla_k8s_example.Convert.Status.Ends.{Halts-ks_status, Halts-modes_of}
use scylla_k8s_example.Convert.Report.{
  report_node, report_table, report_layout, report_status, status_or_error, report_keyspace,
  print_status, typed, ask, is_terminal, confirm,
}

module _ {e : Env} where
  Halts-report_node :
      (modes : Modes) (ks_mode : Json) (n : Node) → Halts e (report_node modes ks_mode n)
  unfolding report_node
  Halts-report_node modes ks_mode n = search (halts_rules, Halts-label) depth 10

  Halts-report_table : (table : Json) → Halts e (report_table table)
  unfolding report_table
  Halts-report_table table = search (api_ends) depth 14

  Halts-report_layout : (status : Json) → Halts e (report_layout status)
  unfolding report_layout
  Halts-report_layout status = search (api_ends, Halts-report_table) depth 16

  Halts-report_status :
      (nodes : List Node) (keyspace : String) (status : Json)
      → Halts e (report_status nodes keyspace status)
  unfolding report_status
  Halts-report_status nodes keyspace status =
      search (api_ends, Halts-modes_of, Halts-report_node, Halts-report_layout) depth 12

  Halts-status_or_error :
      (control : Node) (keyspace : String) → Halts e (status_or_error control keyspace)
  unfolding status_or_error
  Halts-status_or_error control keyspace = search (halts_rules, Halts-ks_status) depth 10

  Halts-report_keyspace :
      (control : Node) (nodes : List Node) (keyspace : String)
      → Halts e (report_keyspace control nodes keyspace)
  unfolding report_keyspace
  Halts-report_keyspace control nodes keyspace =
      search (halts_rules, Halts-status_or_error, Halts-report_status) depth 10

  pub Halts-print_status :
      (control : Node) (nodes : List Node) (keyspaces : List String)
      → Halts e (print_status control nodes keyspaces)
  unfolding print_status
  Halts-print_status control nodes keyspaces = search (halts_rules, Halts-report_keyspace) depth 10

  Halts-typed : (line : Option String) → Halts e (typed line)
  Halts-typed none = Halts-raise _
  Halts-typed (some line) = Halts-pure line

  Halts-ask : (prompt : String) → Halts e (ask prompt)
  unfolding ask
  Halts-ask prompt = record { at = λ s. (Halts-typed (e.input s.trace prompt)).at _ }

  Halts-is_terminal : Halts e is_terminal
  unfolding is_terminal pure
  Halts-is_terminal = record { at = λ s. (Halts-pure {e = e} e.isatty).at s }

  pub Halts-confirm : (prompt : String) (assume_yes : Bool) → Halts e (confirm prompt assume_yes)
  unfolding confirm
  Halts-confirm prompt assume_yes = search (halts_rules, Halts-ask, Halts-is_terminal) depth 10
