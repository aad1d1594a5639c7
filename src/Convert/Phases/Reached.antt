-- ===== src/Convert/Phases/Reached.antt =====
-- A phase that returns has been told that the node reached its mode
-- (sample_app/convert_to_tablets.py, `upgrade_with`, `downgrade_node`).
use scylla_k8s_example.Base.{◌≡◌, ◌∙◌, ℕ, sym, ap, subst, String, List, Option, none, some}
use scylla_k8s_example.Base.{true, Bool-cases, inl, inr}
use scylla_k8s_example.Exec.{ok}
use scylla_k8s_example.Exec.{Env, St, Exec, ◌>>=◌, say, maybe, raise, Exc}
use scylla_k8s_example.Exec.Emits.{Extends-run}
use scylla_k8s_example.Exec.Steps.{bind-ok, raise≢ok}
use scylla_k8s_example.Convert.Api.{Anything-Quiet, Emits-say}
use scylla_k8s_example.Convert.Kube.{K8s}
use scylla_k8s_example.Convert.Nodes.{Node}
use scylla_k8s_example.Convert.Restart.{Options, require}
use scylla_k8s_example.Convert.Status.{wait_node_mode}
use scylla_k8s_example.Convert.Status.Evidence.{wait_node_mode-Reported}
use scylla_k8s_example.Convert.Phases.{upgrade_with, upgrade_node, downgrade_node}
use scylla_k8s_example.Convert.Phases.Guards.{require-ok}
use scylla_k8s_example.Convert.Phases.Guards.{AllReported, AllReported-Grows, is_done-Reported}

-- A node whose wait for the mode succeeded is reported, after one more line of output.
waited-Reported :
    (want line : String) (peer n : Node) (l : List String) (timeout : ℕ) (m : Exec String) (e : Env)
    (s : St) {s' : St}
    → (wait_node_mode peer n l want timeout >>= λ reached. require reached m >>= λ _. say line) e s
      ≡ (ok tt, s')
    → AllReported want l n s'.trace
waited-Reported want line peer n l timeout m e s h =
    let (reached, s1, h1, h2) = bind-ok _ _ h in
    let (_, s2, h3, h4) = bind-ok _ _ h2 in
    let (is_reached, same_s) = require-ok reached m e s1 h3 in
    let told =
      wait_node_mode-Reported peer n want e l timeout s (h1 ∙ ap (λ b. (ok b, s1)) is_reached) in
    AllReported-Grows want l n s2.trace _ (Extends-run (Emits-say Anything-Quiet line) e s2 h4)
      (subst (λ (u : St). AllReported want l n u.trace) (sym same_s) told)

upgrade_with-Reported :
    (opts : Options) (k8s : K8s) (n peer : Node) (e : Env) (s : St) {s' : St}
    → upgrade_with opts k8s n peer e s ≡ (ok tt, s')
    → AllReported "tablets" opts.keyspaces n s'.trace
unfolding upgrade_with
upgrade_with-Reported opts k8s n peer e s h =
    let (done, s1, h1, h2) = bind-ok _ _ h in
    elim (Bool-cases done) [
      | inl d ↦
          AllReported-Grows "tablets" opts.keyspaces n s1.trace _
            (Extends-run (Emits-say Anything-Quiet _) e s1 (rw d at h2))
            (is_done-Reported peer n e opts.keyspaces true s (h1 ∙ ap (λ b. (ok b, s1)) d)).1
      | inr d ↦
          let (_, s2, h3, h4) = bind-ok _ _ (rw d at h2) in
          let (_, s3, h5, h6) = bind-ok _ _ h4 in
          let (_, s4, h7, h8) = bind-ok _ _ h6 in
          waited-Reported "tablets" _ peer n opts.keyspaces opts.state_timeout _ e s4 h8
    ]

upgrade_by-Reported :
    (opts : Options) (k8s : K8s) (n : Node) (x : Exc) (o : Option Node) (e : Env) (s : St) {s' : St}
    → maybe o (raise x) (upgrade_with opts k8s n) e s ≡ (ok tt, s')
    → AllReported "tablets" opts.keyspaces n s'.trace
unfolding maybe
upgrade_by-Reported opts k8s n x none e s h = absurd (raise≢ok x e s h)
upgrade_by-Reported opts k8s n x (some peer) e s h = upgrade_with-Reported opts k8s n peer e s h

pub upgrade_node-Reported :
    (nodes : List Node) (opts : Options) (k8s : K8s) (n : Node) (e : Env) (s : St) {s' : St}
    → upgrade_node nodes opts k8s n e s ≡ (ok tt, s')
    → AllReported "tablets" opts.keyspaces n s'.trace
unfolding upgrade_node
upgrade_node-Reported nodes opts k8s n e s h =
    let (l, s1, h1, h2) = bind-ok _ _ h in
    let (_, s2, h3, h4) = bind-ok _ _ h2 in
    let (peer, s3, h5, h6) = bind-ok _ _ h4 in upgrade_by-Reported opts k8s n _ peer e s3 h6

pub downgrade_node-Reported :
    (control : Node) (nodes : List Node) (opts : Options) (k8s : K8s) (n : Node) (e : Env) (s : St)
    {s' : St}
    → downgrade_node control nodes opts k8s n e s ≡ (ok tt, s')
    → AllReported "vnodes" opts.keyspaces n s'.trace
unfolding downgrade_node
downgrade_node-Reported control nodes opts k8s n e s h =
    let (l, s1, h1, h2) = bind-ok _ _ h in
    let (_, s2, h3, h4) = bind-ok _ _ h2 in
    let (peer, s3, h5, h6) = bind-ok _ _ h4 in
    let (_, s4, h7, h8) = bind-ok _ _ h6 in
    let (restart, s5, h9, h10) = bind-ok _ _ h8 in
    let (_, s6, h11, h12) = bind-ok _ _ h10 in
    waited-Reported "vnodes" _ peer n opts.keyspaces opts.state_timeout _ e s6 h12
