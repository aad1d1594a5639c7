-- ===== src/Convert/Main/Safety.antt =====
-- What a whole run of the program can change (sample_app/convert_to_tablets.py, `main`).
use scylla_k8s_example.Base.{
  ◌≡◌, ℕ, refl, sym, ap, subst, String, List, [], ◌∷◌, Option, none, some, Bool, true, false,
}
use scylla_k8s_example.Base.{if◌then◌else◌, is_empty, not}
use scylla_k8s_example.Exec.{◌>>=◌, Event, Env, St, Exec, Exc, ok, raise, maybe, shut_down, Result}
use scylla_k8s_example.Exec.Emits.{
  Emits-maybe, Emits, Emits-pure, Emits-raise, Emits-bind, Emits-for_each, emits_rules, same, more,
}
use scylla_k8s_example.Exec.Guarded.{Guarded, next, guarded_bind, Guarded-others, Guarded-weaken}
use scylla_k8s_example.Convert.Api.{Quiet, quiet_rules, Emits-say}
use scylla_k8s_example.Convert.Kube.{K8s, PodEnv, connect_k8s}
use scylla_k8s_example.Convert.Nodes.{Node, discover_nodes}
use scylla_k8s_example.Convert.Nodes.Reads.{Emits-label, Emits-discover_nodes, Emits-pick_control}
use scylla_k8s_example.Convert.Restart.{Options}
use scylla_k8s_example.Convert.Restart.Reads.{Emits-require}
use scylla_k8s_example.Convert.Report.Reads.{Emits-print_status}
use scylla_k8s_example.Convert.Phases.Finalization.{
  IsFinal, Other-Quiet, Everywhere, migrate-Guarded, rollback-Guarded,
}
use scylla_k8s_example.Convert.Phases.Changes.{Look, Look-Quiet}
use scylla_k8s_example.Convert.Main.{
  Access, Connect, Metadata, connect, set_api_port, without_address, complain_of,
}
use scylla_k8s_example.Convert.Main.{
  check_addresses, name_node, dispatch, run_on, run, closing, main,
}

module _ {Q : Event → Type 0} where
  Emits-set_api_port : (port : ℕ) → Emits Q (set_api_port port)
  unfolding set_api_port
  Emits-set_api_port port = record { at = λ e s. same }

  Emits-without_address : (nodes : List Node) → Emits Q (without_address nodes)
  unfolding without_address
  Emits-without_address [] = Emits-pure []
  Emits-without_address (n ∷ nodes) =
      let ih = Emits-without_address nodes in search emits_rules depth 8

  Emits-closing : {body : Exec Unit} → Q shut_down → Emits Q body → Emits Q (closing body)
  unfolding closing
  Emits-closing q k = record { at = λ e s. more q (k.at e s) }

module _ {Q : Event → Type 0} (q : Quiet Q) where
  Emits-complain_of : (port : ℕ) (n : Node) → Emits Q (complain_of port n)
  unfolding complain_of
  Emits-complain_of port n = search (quiet_rules, Emits-label) depth 8

  Emits-check_addresses : (port : ℕ) (nodes : List Node) → Emits Q (check_addresses port nodes)
  unfolding check_addresses
  Emits-check_addresses port nodes =
      search (quiet_rules, Emits-without_address, Emits-complain_of) depth 10

  Emits-name_node : (n : Node) → Emits Q (name_node n)
  unfolding name_node
  Emits-name_node n = search (quiet_rules, Emits-label) depth 8

  Emits-dispatch :
      (m : Metadata) (control : Node) (nodes : List Node) (opts : Options) (k8s : K8s)
      → opts.status ≡ true
      → Emits Q (dispatch m control nodes opts k8s)
  unfolding dispatch
  Emits-dispatch m control nodes opts k8s h =
      rw h (Emits-print_status q control nodes opts.keyspaces)

  Emits-run_on :
      (m : Metadata) (nodes : List Node) (opts : Options) (k8s : K8s) (control : Node)
      → opts.status ≡ true
      → Emits Q (run_on m nodes opts k8s control)
  unfolding run_on
  Emits-run_on m nodes opts k8s control h =
      let last = Emits-dispatch m control nodes opts k8s h in
      search (quiet_rules, Emits-name_node) depth 10

  Emits-run :
      (m : Metadata) (p : PodEnv) (opts : Options) → opts.status ≡ true → Emits Q (run m p opts)
  unfolding run
  Emits-run m p opts h = Emits-bind (Emits-discover_nodes q m.hosts (connect_k8s p)) λ nodes.
      Emits-bind (Emits-require (not (is_empty nodes)) (Emits-pure _)) λ _.
        Emits-bind (Emits-check_addresses opts.api_port nodes) λ _.
          Emits-bind (Emits-pick_control q nodes none) λ control.
            Emits-maybe control (Emits-raise _) (λ n. Emits-run_on m nodes opts (connect_k8s p) n h)

-- With `-S` a run sends nothing that changes the cluster, whether it succeeds or not.
pub main-Look :
    (a : Access) (has_certificate : Bool) (m : Metadata) (p : PodEnv) (opts : Options)
    → opts.status ≡ true
    → Emits Look (main a has_certificate m p opts)
unfolding main
main-Look a has_certificate m p opts h = Emits-bind (Emits-set_api_port opts.api_port) λ _.
    Emits-maybe (connect a has_certificate) (Emits-raise _)
      (λ _. Emits-closing (λ x. x) (Emits-run Look-Quiet m p opts h))

-- The mode that a run brings the nodes to.
abbrev pub goal : Options → String
goal opts = if opts.rollback then "vnodes" else "tablets"

-- The list has the nodes that the run has found, and each has been reported to be at the goal in
-- each keyspace.
abbrev pub AtGoal : Metadata → PodEnv → Options → Env → St → List Event → Type 0
AtGoal m p opts e s t =
    (nodes : List Node) × (((discover_nodes m.hosts (connect_k8s p) e s).0 ≡ ok nodes)
      × Everywhere (goal opts) opts.keyspaces nodes t)

if_rule :
    (P : Exec Unit → Type 0) (b : Bool) {x y : Exec Unit}
    → (b ≡ true → P x)
    → (b ≡ false → P y)
    → P (if b then x else y)
if_rule P true f g = f refl
if_rule P false f g = g refl

module _ (m : Metadata) (p : PodEnv) (opts : Options) (e : Env) (s0 : St) where
  dispatch-Guarded :
      (control : Node) (nodes : List Node) (k8s : K8s) (s : St)
      → (discover_nodes m.hosts (connect_k8s p) e s0).0 ≡ ok nodes
      → Guarded IsFinal
          (AtGoal m p opts e s0)
          s.trace
          (dispatch m control nodes opts k8s e s).1.trace
  unfolding dispatch
  dispatch-Guarded control nodes k8s s found =
      let P = λ (x : Exec Unit). Guarded IsFinal (AtGoal m p opts e s0) s.trace (x e s).1.trace in
      let reach =
        λ (want : String) (is_goal : want ≡ goal opts) (t : List Event)
            (h : Everywhere want opts.keyspaces nodes t).
          subst (λ (want : String). Everywhere want opts.keyspaces nodes t) is_goal h in
      if_rule P opts.status
        (λ b. Guarded-others ((Emits-print_status Other-Quiet control nodes opts.keyspaces).at e s))
        (λ b.
          if_rule P opts.rollback
            (λ r.
              let is_goal = sym (ap (λ (b : Bool). if b then "vnodes" else "tablets") r) in
              Guarded-weaken (λ t h. (nodes, (found, reach "vnodes" is_goal t h.0)))
                (rollback-Guarded control nodes opts k8s e s))
            (λ r.
              let is_goal = sym (ap (λ (b : Bool). if b then "vnodes" else "tablets") r) in
              Guarded-weaken (λ t h. (nodes, (found, reach "tablets" is_goal t h.0)))
                (migrate-Guarded m.schema control nodes opts k8s e s)))

  run_on-Guarded :
      (nodes : List Node) (k8s : K8s) (control : Node) (s : St)
      → (discover_nodes m.hosts (connect_k8s p) e s0).0 ≡ ok nodes
      → Guarded IsFinal (AtGoal m p opts e s0) s.trace (run_on m nodes opts k8s control e s).1.trace
  unfolding run_on
  run_on-Guarded nodes k8s control s found =
      guarded_bind _ _ e s (Emits-say Other-Quiet _) λ _ s1 h1.
        guarded_bind _ _ e s1 (Emits-for_each nodes (Emits-name_node Other-Quiet)) λ _ s2 h2.
          guarded_bind _ _ e s2 (Emits-say Other-Quiet _)
            λ _ s3 h3. dispatch-Guarded control nodes k8s s3 found

  chosen-Guarded :
      (o : Option Node) (x : Exc) (nodes : List Node) (s : St)
      → (discover_nodes m.hosts (connect_k8s p) e s0).0 ≡ ok nodes
      → Guarded IsFinal
          (AtGoal m p opts e s0)
          s.trace
          (maybe o (raise x) (run_on m nodes opts (connect_k8s p)) e s).1.trace
  unfolding maybe
  chosen-Guarded none x nodes s found = Guarded-others ((Emits-raise x).at e s)
  chosen-Guarded (some control) x nodes s found =
      run_on-Guarded nodes (connect_k8s p) control s found

  run-Guarded : Guarded IsFinal (AtGoal m p opts e s0) s0.trace (run m p opts e s0).1.trace
  unfolding run
  run-Guarded =
      guarded_bind _ _ e s0 (Emits-discover_nodes Other-Quiet m.hosts (connect_k8s p))
        λ nodes s1 h1.
          guarded_bind _ _ e s1 (Emits-require (not (is_empty nodes)) (Emits-pure _)) λ _ s2 h2.
            guarded_bind _ _ e s2 (Emits-check_addresses Other-Quiet opts.api_port nodes) λ _ s3 h3.
              guarded_bind _ _ e s3 (Emits-pick_control Other-Quiet nodes none) λ control s4 h4.
                chosen-Guarded control _ nodes s4 (ap (λ (r : Result (List Node) × St). r.0) h1)

connected-Guarded :
    (c : Option Connect) (x : Exc) (m : Metadata) (p : PodEnv) (opts : Options) (e : Env) (s : St)
    → Guarded IsFinal
        (AtGoal m p opts e s)
        s.trace
        (maybe c (raise x) (λ _. closing (run m p opts)) e s).1.trace
unfolding maybe closing
connected-Guarded none x m p opts e s = Guarded-others ((Emits-raise x).at e s)
connected-Guarded (some c) x m p opts e s = next (λ f. absurd f) (run-Guarded m p opts e s)

-- Whatever the cluster, the user and the clock do: each time a run, of a migration or a rollback,
-- sends the `POST` that finalizes a keyspace, each node that the run has found had been reported to
-- be at the run's goal, tablets or vnodes, in each keyspace of the options.
pub main-Guarded :
    (a : Access) (has_certificate : Bool) (m : Metadata) (p : PodEnv) (opts : Options) (e : Env)
    (s : St)
    → Guarded IsFinal
        (AtGoal m p opts e (record s { api_port = opts.api_port }))
        s.trace
        (main a has_certificate m p opts e s).1.trace
unfolding main set_api_port ◌>>=◌
main-Guarded a has_certificate m p opts e s =
    connected-Guarded (connect a has_certificate) _ m p opts e
      (record s { api_port = opts.api_port })
