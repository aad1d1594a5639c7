-- ===== src/Convert/Report/Reads.antt =====
-- The report and the questions only read (sample_app/convert_to_tablets.py, `print_status`,
-- `confirm`).
use scylla_k8s_example.Base.{String, List, Option, none, some, Bool}
use scylla_k8s_example.Json.{Json}
use scylla_k8s_example.Exec.{Event}
use scylla_k8s_example.Exec.Emits.{
  Emits, Emits-pure, Emits-raise, Extends-trans, same, more, emits_rules,
}
use scylla_k8s_example.Convert.Api.{Quiet, quiet_rules}
use scylla_k8s_example.Convert.Nodes.{Node}
use scylla_k8s_example.Convert.Nodes.Reads.{Emits-label}
use scylla_k8s_example.Convert.Status.{Modes}
use scylla_k8s_example.Convert.Status.Reads.{Emits-ks_status, Emits-modes_of}
use scylla_k8s_example.Convert.Report.{report_node, report_stranger, report_table, report_layout}
use scylla_k8s_example.Convert.Report.{
  report_status, status_or_error, report_keyspace, print_status,
}
use scylla_k8s_example.Convert.Report.{typed, ask, is_terminal, confirm}

module _ {Q : Event → Type 0} (q : Quiet Q) where
  Emits-report_node : (modes : Modes) (m : Json) (n : Node) → Emits Q (report_node modes m n)
  unfolding report_node
  Emits-report_node modes m n = search (quiet_rules, Emits-label) depth 8

  Emits-report_stranger :
      (modes : Modes) (m : Json) (id : String) → Emits Q (report_stranger modes m id)
  unfolding report_stranger
  Emits-report_stranger modes m id = search quiet_rules

  Emits-report_table : (table : Json) → Emits Q (report_table table)
  unfolding report_table
  Emits-report_table table = search quiet_rules depth 10

  Emits-report_layout : (status : Json) → Emits Q (report_layout status)
  unfolding report_layout
  Emits-report_layout status = search (quiet_rules, Emits-report_table) depth 14

  Emits-report_status :
      (nodes : List Node) (keyspace : String) (status : Json)
      → Emits Q (report_status nodes keyspace status)
  unfolding report_status
  Emits-report_status nodes keyspace status =
      search
        (quiet_rules, Emits-modes_of, Emits-report_node, Emits-report_stranger, Emits-report_layout)
        depth 12

  Emits-status_or_error :
      (control : Node) (keyspace : String) → Emits Q (status_or_error control keyspace)
  unfolding status_or_error
  Emits-status_or_error control keyspace = search (quiet_rules, Emits-ks_status) depth 8

  Emits-report_keyspace :
      (control : Node) (nodes : List Node) (keyspace : String)
      → Emits Q (report_keyspace control nodes keyspace)
  unfolding report_keyspace
  Emits-report_keyspace control nodes keyspace =
      search (quiet_rules, Emits-status_or_error, Emits-report_status) depth 8

  pub Emits-print_status :
      (control : Node) (nodes : List Node) (keyspaces : List String)
      → Emits Q (print_status control nodes keyspaces)
  unfolding print_status
  Emits-print_status control nodes keyspaces = search (emits_rules, Emits-report_keyspace)

  Emits-typed : (line : Option String) → Emits Q (typed line)
  Emits-typed none = Emits-raise _
  Emits-typed (some line) = Emits-pure line

  Emits-ask : (prompt : String) → Emits Q (ask prompt)
  unfolding ask
  Emits-ask prompt = record {
    at = λ e s.
        let line = e.input s.trace prompt in
        Extends-trans (more (q.questions prompt line) same) ((Emits-typed line).at e _);
  }

  Emits-is_terminal : Emits Q is_terminal
  unfolding is_terminal
  Emits-is_terminal = record { at = λ e s. same }

  pub Emits-confirm : (prompt : String) (yes_ : Bool) → Emits Q (confirm prompt yes_)
  unfolding confirm
  Emits-confirm prompt yes_ = search (emits_rules, Emits-ask, Emits-is_terminal) depth 10
