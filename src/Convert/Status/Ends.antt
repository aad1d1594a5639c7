-- ===== src/Convert/Status/Ends.antt =====
-- The end of reading the state of the migration (sample_app/convert_to_tablets.py, `ks_status` to
-- `set_storage_mode`).
use scylla_k8s_example.Base.{ℕ, String, List, [], ◌∷◌, Option}
use scylla_k8s_example.Base.Dict.{Dict}
use scylla_k8s_example.Json.{Json}
use scylla_k8s_example.Exec.{Env}
use scylla_k8s_example.Exec.Halts.{Halts, Halts-pure, halts_rules}
use scylla_k8s_example.Convert.Api.Ends.{api_ends}
use scylla_k8s_example.Convert.Nodes.{Node}
use scylla_k8s_example.Convert.Status.{
  ks_status, ks_state, Modes, collect_modes, modes_of, node_modes, phrase_in, phrases,
  set_storage_mode, timed_out_line, progress_line,
}

module _ {e : Env} where
  Halts-collect_modes : (l : List Json) (modes : Modes) → Halts e (collect_modes l modes)
  unfolding collect_modes
  Halts-collect_modes [] modes = Halts-pure modes
  Halts-collect_modes (entry ∷ l) modes = search (api_ends, Halts-collect_modes l) depth 10

  pub Halts-modes_of : (status : Json) → Halts e (modes_of status)
  unfolding modes_of
  Halts-modes_of status = search (api_ends, Halts-collect_modes) depth 8

  pub Halts-ks_status :
      (n : Node) (keyspace : String) (include : Option String)
      → Halts e (ks_status n keyspace include)
  unfolding ks_status
  Halts-ks_status n keyspace include = search api_ends depth 8

  Halts-node_modes : (n : Node) (keyspace : String) → Halts e (node_modes n keyspace)
  unfolding node_modes
  Halts-node_modes n keyspace = search (api_ends, Halts-ks_status, Halts-modes_of) depth 8

  pub Halts-phrase_in :
      (control n : Node) (keyspace : String) → Halts e (phrase_in control n keyspace)
  unfolding phrase_in
  Halts-phrase_in control n keyspace = search (halts_rules, Halts-node_modes) depth 8

  pub Halts-phrases :
      (control n : Node) (l : List String) (found : Dict String)
      → Halts e (phrases control n l found)
  unfolding phrases
  Halts-phrases control n [] found = Halts-pure found
  Halts-phrases control n (keyspace ∷ l) found =
      search (halts_rules, Halts-phrase_in, Halts-phrases control n l) depth 8

  pub Halts-timed_out_line :
      (timeout : ℕ) (p : String × String) → Halts e (timed_out_line timeout p)
  unfolding timed_out_line
  Halts-timed_out_line timeout (keyspace, phrase) = search halts_rules

  pub Halts-progress_line : (p : String × String) → Halts e (progress_line p)
  unfolding progress_line
  Halts-progress_line (keyspace, phrase) = search halts_rules

  pub Halts-ks_state : (n : Node) (keyspace : String) → Halts e (ks_state n keyspace)
  unfolding ks_state
  Halts-ks_state n keyspace = search (api_ends, Halts-ks_status) depth 8

  pub Halts-set_storage_mode : (n : Node) (mode : String) → Halts e (set_storage_mode n mode)
  unfolding set_storage_mode
  Halts-set_storage_mode n mode = search api_ends depth 8
