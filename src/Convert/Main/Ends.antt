-- ===== src/Convert/Main/Ends.antt =====
-- The end of the whole run (sample_app/convert_to_tablets.py, `main`).
use scylla_k8s_example.Base.{ℕ, List, [], ◌∷◌, Bool}
use scylla_k8s_example.Exec.{Env, Exec, pure}
use scylla_k8s_example.Exec.Halts.{
  Halts, Halts-pure, Halts-raise, Halts-bind, Halts-maybe, halts_rules,
}
use scylla_k8s_example.Convert.Kube.{K8s, PodEnv}
use scylla_k8s_example.Convert.Nodes.{Node}
use scylla_k8s_example.Convert.Nodes.Ends.{Halts-label, Halts-discover_nodes, Halts-pick_control}
use scylla_k8s_example.Convert.Restart.{Options}
use scylla_k8s_example.Convert.Restart.Ends.{Halts-require}
use scylla_k8s_example.Convert.Report.Ends.{Halts-print_status}
use scylla_k8s_example.Convert.Waits.{Ticks}
use scylla_k8s_example.Convert.Phases.Ends.{Halts-rollback, Halts-migrate}
use scylla_k8s_example.Convert.Main.{
  Access, Metadata, connect, set_api_port, without_address, complain_of, check_addresses, name_node,
  dispatch, run_on, run, closing, main,
}

module _ {e : Env} where
  Halts-set_api_port : (port : ℕ) → Halts e (set_api_port port)
  unfolding set_api_port pure
  Halts-set_api_port port = record { at = λ s. (Halts-pure {e = e} tt).at s }

  Halts-closing : {body : Exec Unit} → Halts e body → Halts e (closing body)
  unfolding closing
  Halts-closing kb = record { at = λ s. kb.at s }

  Halts-without_address : (l : List Node) → Halts e (without_address l)
  unfolding without_address
  Halts-without_address [] = Halts-pure []
  Halts-without_address (n ∷ l) = let ih = Halts-without_address l in search (halts_rules) depth 10

  Halts-complain_of : (port : ℕ) (n : Node) → Halts e (complain_of port n)
  unfolding complain_of
  Halts-complain_of port n = search (halts_rules, Halts-label) depth 10

  Halts-check_addresses : (port : ℕ) (nodes : List Node) → Halts e (check_addresses port nodes)
  unfolding check_addresses
  Halts-check_addresses port nodes =
      search (halts_rules, Halts-without_address, Halts-complain_of) depth 10

  Halts-name_node : (n : Node) → Halts e (name_node n)
  unfolding name_node
  Halts-name_node n = search (halts_rules, Halts-label) depth 10

module _ {e : Env} (c : Ticks e) where
  Halts-dispatch :
      (m : Metadata) (control : Node) (nodes : List Node) (opts : Options) (k8s : K8s)
      → Halts e (dispatch m control nodes opts k8s)
  unfolding dispatch
  Halts-dispatch m control nodes opts k8s =
      search (halts_rules, Halts-print_status, Halts-rollback c, Halts-migrate c) depth 10

  Halts-run_on :
      (m : Metadata) (nodes : List Node) (opts : Options) (k8s : K8s) (control : Node)
      → Halts e (run_on m nodes opts k8s control)
  unfolding run_on
  Halts-run_on m nodes opts k8s control =
      search (halts_rules, Halts-name_node, Halts-dispatch) depth 12

  Halts-run : (m : Metadata) (p : PodEnv) (opts : Options) → Halts e (run m p opts)
  unfolding run
  Halts-run m p opts =
      search
        (
          halts_rules, Halts-discover_nodes, Halts-require, Halts-check_addresses,
          Halts-pick_control, Halts-run_on,
        )
        depth 12

  -- If the clock never goes back and a sleep takes its time, a run of the program ends, for every cluster,
  -- every answer of the user and all options: it returns or raises, and neither waits nor polls for
  -- ever.
  pub main-Halts :
      (a : Access) (has_certificate : Bool) (m : Metadata) (p : PodEnv) (opts : Options)
      → Halts e (main a has_certificate m p opts)
  unfolding main
  main-Halts a has_certificate m p opts =
      let run_ends = Halts-run m p opts in
      Halts-bind (Halts-set_api_port opts.api_port)
        λ _. Halts-maybe (connect a has_certificate) (Halts-raise _) (λ _. Halts-closing run_ends)
