-- ===== src/Convert/Phases/Finalization.antt =====
-- The step that cannot be undone (sample_app/convert_to_tablets.py, `migrate`, `rollback`): the
-- `POST` to the finalization of a keyspace.
use scylla_k8s_example.Base.{◌≡◌, String, ◌<>◌, List}
use scylla_k8s_example.Base.{All, length}
use scylla_k8s_example.Base.Text.{join, show_nat}
use scylla_k8s_example.Base.Dict.{Dict}
use scylla_k8s_example.Exec.{ok, Event, sent, rest, kube, review, get, post, put, delete}
use scylla_k8s_example.Exec.{finalization, Reply, Call, Env, St, for_each, say}
use scylla_k8s_example.Exec.Emits.{Extends-run, Emits, Emits-pure, Emits-for_each}
use scylla_k8s_example.Exec.Guarded.{Guarded, guarded_bind, Guarded-granted, Grows, for_each-All}
use scylla_k8s_example.Exec.Steps.{bind-ok, All-grow}
use scylla_k8s_example.Convert.Api.{Anything-Quiet, IsRead, Quiet, Emits-say}
use scylla_k8s_example.Convert.Kube.{K8s}
use scylla_k8s_example.Convert.Nodes.{Node}
use scylla_k8s_example.Convert.Restart.{Options}
use scylla_k8s_example.Convert.Restart.Reads.{Emits-check_restart_capability, Emits-require}
use scylla_k8s_example.Convert.Report.Reads.{Emits-confirm}
use scylla_k8s_example.Convert.Preflight.Schema.{Keyspace}
use scylla_k8s_example.Convert.Phases.Reached.{upgrade_node-Reported, downgrade_node-Reported}
use scylla_k8s_example.Convert.Phases.{upgrade_node, downgrade_node, migrate, rollback}
use scylla_k8s_example.Convert.Phases.{ask_to_finalize, check_unfinalized}
use scylla_k8s_example.Convert.Phases.Effects.{
  Changes, Anything-Changes, Anything-Finals, Emits-check_all, Emits-ask_to_start,
}
use scylla_k8s_example.Convert.Phases.Effects.{
  Emits-prepare_all, Emits-upgrade_node, Emits-ask_to_finalize,
}
use scylla_k8s_example.Convert.Phases.Effects.{Emits-finish_migration, Emits-check_unfinalized}
use scylla_k8s_example.Convert.Phases.Effects.{Emits-downgrade_node, Emits-finish_rollback}
use scylla_k8s_example.Convert.Phases.Guards.{sure-Consent, Consent, Consent-Grows}
use scylla_k8s_example.Convert.Phases.Guards.{AllReported, AllReported-Grows}

-- `POST` to the finalization of some keyspace.
abbrev pub IsFinal : Event → Type 0
IsFinal (sent (rest post host port (finalization keyspace) params timeout) r) = Unit
IsFinal _ = ⊥

abbrev pub Other : Event → Type 0
Other ev = ¬ IsFinal ev

read-Other : (c : Call) (r : Reply) → IsRead c → Other (sent c r)
read-Other (rest get host port route params timeout) r h x = x
read-Other (rest post host port route params timeout) r h x = h
read-Other (rest put host port route params timeout) r h x = x
read-Other (rest delete host port route params timeout) r h x = x
read-Other (kube m base route timeout) r h x = x
read-Other (review base namespace timeout) r h x = x

pub Other-Quiet : Quiet Other
Other-Quiet = record {
  reads = read-Other;
  queries = λ keyspace x. x;
  sleeps = λ n x. x;
  lines = λ line x. x;
  complaints = λ line x. x;
  questions = λ prompt line x. x;
}

Other-Changes : Changes Other
Other-Changes = record {
  restarts = record { drains = λ host port timeout r x. x; deletes = λ base route timeout r x. x };
  modes = λ host port mode r x. x;
  starts = λ host port keyspace timeout r x. x;
}

-- Every node has been reported to use the mode in every keyspace.
abbrev pub Everywhere : String → List String → List Node → List Event → Type 0
Everywhere want keyspaces nodes t = All (λ n. AllReported want keyspaces n t) nodes

Everywhere-Grows :
    (want : String) (l : List String) (nodes : List Node) → Grows (Everywhere want l nodes)
Everywhere-Grows want l nodes t u x h =
    All-grow (λ n v. AllReported want l n v) nodes (λ n. AllReported-Grows want l n t u x) h

abbrev pub finalize_prompt : Options → String
finalize_prompt opts = "Finalize " <> join " " opts.keyspaces <> "?"

abbrev pub downgrade_prompt : List Node → String
downgrade_prompt nodes = "Downgrade all " <> show_nat (length nodes) <> " node(s) back to vnodes?"

-- What has to be in the history before the step that cannot be undone.
abbrev pub Ready : String → List Node → Options → String → List Event → Type 0
Ready want nodes opts prompt t = Everywhere want opts.keyspaces nodes t × Consent opts.yes_ prompt t

Ready-Grows :
    (want : String) (nodes : List Node) (opts : Options) (prompt : String)
    → Grows (Ready want nodes opts prompt)
Ready-Grows want nodes opts prompt t u x (h, c) =
    (Everywhere-Grows want opts.keyspaces nodes t u x h, Consent-Grows opts.yes_ prompt t u x c)

pub ask_to_finalize-Consent :
    (opts : Options) (e : Env) (s : St) {s' : St}
    → ask_to_finalize opts e s ≡ (ok tt, s')
    → Consent opts.yes_ (finalize_prompt opts) s'.trace
unfolding ask_to_finalize
ask_to_finalize-Consent opts e s h =
    let (_, s1, h1, h2) = bind-ok _ _ h in
    let (_, s2, h3, h4) = bind-ok _ _ h2 in
    let (sure, s3, h5, h6) = bind-ok _ _ h4 in sure-Consent _ opts.yes_ sure _ e s2 h5 h6

Emits-say-Other : (line : String) → Emits Other (say line)
Emits-say-Other line = Emits-say Other-Quiet line

pub Emits-upgrades :
    {Q : Event → Type 0} (q : Quiet Q) (c : Changes Q) (nodes l : List Node) (opts : Options)
    (k8s : K8s)
    → Emits Q (for_each l (upgrade_node nodes opts k8s))
Emits-upgrades q c nodes l opts k8s =
    Emits-for_each l (λ n. Emits-upgrade_node q c nodes opts k8s n)

pub Emits-unfinalized :
    {Q : Event → Type 0} (q : Quiet Q) (control : Node) (l : List String)
    → Emits Q (for_each l (check_unfinalized control))
Emits-unfinalized q control l = Emits-for_each l (Emits-check_unfinalized q control)

pub Emits-downgrades :
    {Q : Event → Type 0} (q : Quiet Q) (c : Changes Q) (control : Node) (nodes l : List Node)
    (opts : Options) (k8s : K8s)
    → Emits Q (for_each l (downgrade_node control nodes opts k8s))
Emits-downgrades q c control nodes l opts k8s =
    Emits-for_each l (λ n. Emits-downgrade_node q c control nodes opts k8s n)

-- Whatever the cluster, the user and the clock do: each time `migrate` sends the `POST` that
-- finalizes a keyspace, each node of the list had been reported to use tablets in each keyspace
-- of the options, and the user had agreed to finalize, by `-y` or by an answer to the question.
pub migrate-Guarded :
    (schema : Dict Keyspace) (control : Node) (nodes : List Node) (opts : Options) (k8s : K8s)
    (e : Env) (s : St)
    → Guarded IsFinal
        (Ready "tablets" nodes opts (finalize_prompt opts))
        s.trace
        (migrate schema control nodes opts k8s e s).1.trace
unfolding migrate
migrate-Guarded schema control nodes opts k8s e s =
    guarded_bind _ _ e s (Emits-check_all Other-Quiet control schema nodes opts k8s)
      λ to_prepare s1 h1. guarded_bind _ _ e s1 (Emits-ask_to_start Other-Quiet opts) λ _ s2 h2.
        guarded_bind _ _ e s2
          (Emits-prepare_all Other-Quiet Other-Changes.starts control opts to_prepare)
          λ _ s3 h3. guarded_bind _ _ e s3 (Emits-say-Other _) λ _ s4 h4.
            guarded_bind _ _ e s4 (Emits-upgrades Other-Quiet Other-Changes nodes nodes opts k8s)
              λ _ s5 h5. guarded_bind _ _ e s5 (Emits-ask_to_finalize Other-Quiet opts) λ _ s6 h6.
                let reported =
                  for_each-All (AllReported "tablets" opts.keyspaces) (upgrade_node nodes opts k8s)
                    e (AllReported-Grows "tablets" opts.keyspaces)
                    (Emits-upgrade_node Anything-Quiet Anything-Changes nodes opts k8s)
                    (λ n t t' h. upgrade_node-Reported nodes opts k8s n e t h) nodes s4 h5 in
                let still =
                  Everywhere-Grows "tablets" opts.keyspaces nodes s5.trace s6.trace
                    (Extends-run (Emits-ask_to_finalize Anything-Quiet opts) e s5 h6) reported in
                Guarded-granted (Ready-Grows "tablets" nodes opts (finalize_prompt opts))
                  (still, ask_to_finalize-Consent opts e s5 h6)
                  ((Emits-finish_migration Anything-Quiet Anything-Finals control nodes opts).at e
                    s6)

-- Whatever the cluster, the user and the clock do: each time `rollback` sends the `POST` that
-- finalizes a keyspace, each node of the list had been reported to use vnodes in each keyspace of
-- the options, and the user had agreed to downgrade, by `-y` or by an answer to the question.
pub rollback-Guarded :
    (control : Node) (nodes : List Node) (opts : Options) (k8s : K8s) (e : Env) (s : St)
    → Guarded IsFinal
        (Ready "vnodes" nodes opts (downgrade_prompt nodes))
        s.trace
        (rollback control nodes opts k8s e s).1.trace
unfolding rollback
rollback-Guarded control nodes opts k8s e s = guarded_bind _ _ e s (Emits-say-Other _) λ _ s1 h1.
    guarded_bind _ _ e s1 (Emits-unfinalized Other-Quiet control opts.keyspaces) λ _ s2 h2.
      guarded_bind _ _ e s2 (Emits-check_restart_capability Other-Quiet nodes opts k8s) λ _ s3 h3.
        guarded_bind _ _ e s3 (Emits-confirm Other-Quiet _ opts.yes_) λ sure s4 h4.
          guarded_bind _ _ e s4 (Emits-require sure (Emits-pure "aborted")) λ _ s5 h5.
            guarded_bind _ _ e s5
              (Emits-downgrades Other-Quiet Other-Changes control nodes nodes opts k8s)
              λ _ s6 h6.
                let reported =
                  for_each-All (AllReported "vnodes" opts.keyspaces)
                    (downgrade_node control nodes opts k8s) e
                    (AllReported-Grows "vnodes" opts.keyspaces)
                    (Emits-downgrade_node Anything-Quiet Anything-Changes control nodes opts k8s)
                    (λ n t t' h. downgrade_node-Reported control nodes opts k8s n e t h) nodes s5
                    h6 in
                let still =
                  Consent-Grows opts.yes_ (downgrade_prompt nodes) s5.trace s6.trace
                    (Extends-run
                      (Emits-downgrades Anything-Quiet Anything-Changes control nodes nodes opts
                        k8s)
                      e s5 h6)
                    (sure-Consent (downgrade_prompt nodes) opts.yes_ sure _ e s3 h4 h5) in
                Guarded-granted (Ready-Grows "vnodes" nodes opts (downgrade_prompt nodes))
                  (reported, still)
                  ((Emits-finish_rollback Anything-Quiet Anything-Finals control nodes opts).at e
                    s6)
