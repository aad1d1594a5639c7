-- ===== src/Convert/Status/Reads.antt =====
-- Reading and awaiting the state of the migration (sample_app/convert_to_tablets.py) changes nothing.
use scylla_k8s_example.Base.{ℕ, zero, suc, String, List, [], ◌∷◌, Option}
use scylla_k8s_example.Base.Dict.{Dict}
use scylla_k8s_example.Json.{Json}
use scylla_k8s_example.Exec.{Event}
use scylla_k8s_example.Exec.Emits.{Emits, Emits-pure, Emits-out_of_fuel, emits_rules}
use scylla_k8s_example.Exec.Values.{values_rules}
use scylla_k8s_example.Convert.Api.{Quiet, quiet_rules}
use scylla_k8s_example.Convert.Nodes.{Node}
use scylla_k8s_example.Convert.Status.{
  ks_status, ks_state, Modes, collect_modes, modes_of, node_modes,
}
use scylla_k8s_example.Convert.Status.{phrase_in, phrases, timed_out_line, progress_line, poll_mode}
use scylla_k8s_example.Convert.Status.{wait_node_mode}

module _ {Q : Event → Type 0} where
  Emits-collect_modes : (l : List Json) (modes : Modes) → Emits Q (collect_modes l modes)
  unfolding collect_modes
  Emits-collect_modes [] modes = Emits-pure modes
  Emits-collect_modes (entry ∷ l) modes =
      search (emits_rules, values_rules, Emits-collect_modes l) depth 10

  pub Emits-modes_of : (status : Json) → Emits Q (modes_of status)
  unfolding modes_of
  Emits-modes_of status = search (emits_rules, values_rules, Emits-collect_modes) depth 8

module _ {Q : Event → Type 0} (q : Quiet Q) where
  pub Emits-ks_status :
      (n : Node) (keyspace : String) (include : Option String)
      → Emits Q (ks_status n keyspace include)
  unfolding ks_status
  Emits-ks_status n keyspace include = search quiet_rules depth 8

  pub Emits-ks_state : (n : Node) (keyspace : String) → Emits Q (ks_state n keyspace)
  unfolding ks_state
  Emits-ks_state n keyspace = search (quiet_rules, Emits-ks_status) depth 8

  pub Emits-node_modes : (n : Node) (keyspace : String) → Emits Q (node_modes n keyspace)
  unfolding node_modes
  Emits-node_modes n keyspace = search (quiet_rules, Emits-ks_status, Emits-modes_of) depth 8

  pub Emits-phrase_in :
      (control n : Node) (keyspace : String) → Emits Q (phrase_in control n keyspace)
  unfolding phrase_in
  Emits-phrase_in control n keyspace = search (emits_rules, Emits-node_modes) depth 8

  pub Emits-phrases :
      (control n : Node) (l : List String) (found : Dict String)
      → Emits Q (phrases control n l found)
  unfolding phrases
  Emits-phrases control n [] found = Emits-pure found
  Emits-phrases control n (keyspace ∷ l) found =
      search (emits_rules, Emits-phrase_in, Emits-phrases control n l) depth 8

  Emits-timed_out_line : (timeout : ℕ) (p : String × String) → Emits Q (timed_out_line timeout p)
  unfolding timed_out_line
  Emits-timed_out_line timeout (keyspace, phrase) = search quiet_rules

  pub Emits-progress_line : (p : String × String) → Emits Q (progress_line p)
  unfolding progress_line
  Emits-progress_line (keyspace, phrase) = search quiet_rules

  Emits-poll_mode :
      (fuel : ℕ) (control n : Node) (l : List String) (want : String) (timeout deadline : ℕ)
      → Emits Q (poll_mode fuel control n l want timeout deadline)
  unfolding poll_mode
  Emits-poll_mode zero control n l want timeout deadline = Emits-out_of_fuel
  Emits-poll_mode (suc fuel) control n l want timeout deadline =
      let ih = Emits-poll_mode fuel control n l want timeout deadline in
      search (quiet_rules, Emits-phrases, Emits-timed_out_line, Emits-progress_line) depth 12

  pub Emits-wait_node_mode :
      (control n : Node) (l : List String) (want : String) (timeout : ℕ)
      → Emits Q (wait_node_mode control n l want timeout)
  unfolding wait_node_mode
  Emits-wait_node_mode control n l want timeout = search (emits_rules, Emits-poll_mode) depth 8
