-- ===== src/Convert/Phases/Changes.antt =====
-- What is in the history before the first call that changes the cluster
-- (sample_app/convert_to_tablets.py, `migrate`, `rollback`).
use scylla_k8s_example.Base.{◌≡◌, subst, String, ◌<>◌, List, [], ◌∷◌, All, All-map, inl, inr}
use scylla_k8s_example.Base.Text.{join}
use scylla_k8s_example.Base.Dict.{Dict}
use scylla_k8s_example.Exec.{
  ok, Event, sent, rest, kube, review, get, post, put, delete, keyspace_status,
}
use scylla_k8s_example.Exec.{Call, Reply, Env, St, say, for_each, ◌>>◌}
use scylla_k8s_example.Exec.Emits.{
  Extends-run, Extends-trans, Anything, Emits, Emits-pure, Emits-bind, Extends,
}
use scylla_k8s_example.Exec.Guarded.{Guarded, guarded_bind, Guarded-granted, Grows, for_each-All}
use scylla_k8s_example.Exec.Steps.{Some, here, there, bind-ok, Some-grow, All-grow}
use scylla_k8s_example.Convert.Api.{Anything-Quiet, IsRead, Quiet, Emits-say}
use scylla_k8s_example.Convert.Kube.{K8s}
use scylla_k8s_example.Convert.Nodes.{Node}
use scylla_k8s_example.Convert.Restart.{Options}
use scylla_k8s_example.Convert.Restart.Reads.{Emits-check_restart_capability, Emits-require}
use scylla_k8s_example.Convert.Report.Reads.{Emits-confirm, Emits-print_status}
use scylla_k8s_example.Convert.Report.{print_status}
use scylla_k8s_example.Convert.Nodes.{Host, discover_nodes}
use scylla_k8s_example.Convert.Nodes.Reads.{Emits-discover_nodes}
use scylla_k8s_example.Convert.Preflight.Schema.{Keyspace}
use scylla_k8s_example.Convert.Phases.{
  check_all, ask_to_finalize, finish_migration, prepare_all, downgrade_node, finish_rollback,
  check_unfinalized, ask_to_start, upgrade_node, migrate, rollback,
}
use scylla_k8s_example.Convert.Phases.Effects.{
  Starts, Anything-Changes, Anything-Finals, Emits-check_all,
}
use scylla_k8s_example.Convert.Phases.Effects.{
  Emits-ask_to_start, Emits-ask_to_finalize, Emits-prepare_all,
}
use scylla_k8s_example.Convert.Phases.Effects.{
  Emits-finish_migration, Emits-finish_rollback, Emits-check_unfinalized,
}
use scylla_k8s_example.Convert.Phases.Guards.{Consent, Consent-Grows, sure-Consent}
use scylla_k8s_example.Convert.Phases.Prepared.{
  Migrating, Migrating-Grows, Handled, check_all-Handled,
}
use scylla_k8s_example.Convert.Phases.Prepared.{prepare_all-Migrating, check_unfinalized-Migrating}
use scylla_k8s_example.Convert.Phases.Finalization.{
  downgrade_prompt, Emits-unfinalized, Emits-upgrades, Emits-downgrades,
}

-- A call to the cluster that is not a read.
abbrev pub IsChange : Event → Type 0
IsChange (sent c r) = ¬ IsRead c
IsChange _ = ⊥

-- A change other than the start of a keyspace's migration: of a node's storage mode, a drain, the
-- deletion of a pod, or a finalization.
abbrev pub IsDisruptive : Event → Type 0
IsDisruptive (sent (rest post host port (keyspace_status keyspace) params timeout) r) = ⊥
IsDisruptive (sent c r) = ¬ IsRead c
IsDisruptive _ = ⊥

abbrev pub Look : Event → Type 0
Look ev = ¬ IsChange ev

abbrev Mild : Event → Type 0
Mild ev = ¬ IsDisruptive ev

pub Look-Quiet : Quiet Look
Look-Quiet = record {
  reads = λ c r h x. x h;
  queries = λ keyspace x. x;
  sleeps = λ n x. x;
  lines = λ line x. x;
  complaints = λ line x. x;
  questions = λ prompt line x. x;
}

read-Mild : (c : Call) (r : Reply) → IsRead c → Mild (sent c r)
read-Mild (rest get host port route params timeout) r h x = x tt
read-Mild (rest post host port route params timeout) r h x = h
read-Mild (rest put host port route params timeout) r h x = h
read-Mild (rest delete host port route params timeout) r h x = h
read-Mild (kube get base route timeout) r h x = x tt
read-Mild (kube post base route timeout) r h x = h
read-Mild (kube put base route timeout) r h x = h
read-Mild (kube delete base route timeout) r h x = h
read-Mild (review base namespace timeout) r h x = x tt

Mild-Quiet : Quiet Mild
Mild-Quiet = record {
  reads = read-Mild;
  queries = λ keyspace x. x;
  sleeps = λ n x. x;
  lines = λ line x. x;
  complaints = λ line x. x;
  questions = λ prompt line x. x;
}

Mild-Starts : Starts Mild
Mild-Starts host port keyspace timeout r x = x

abbrev pub start_prompt : Options → String
start_prompt opts = "Migrate " <> join " " opts.keyspaces <> " to tablets?"

ask_to_start-Consent :
    (opts : Options) (e : Env) (s : St) {s' : St}
    → ask_to_start opts e s ≡ (ok tt, s')
    → Consent opts.yes_ (start_prompt opts) s'.trace
unfolding ask_to_start
ask_to_start-Consent opts e s h =
    let (_, s1, h1, h2) = bind-ok _ _ h in
    let (sure, s2, h3, h4) = bind-ok _ _ h2 in sure-Consent _ opts.yes_ sure _ e s1 h3 h4

-- All keyspaces have been reported as migrating to tablets.
abbrev pub AllMigrating : List String → List Event → Type 0
AllMigrating keyspaces t = All (λ k. Migrating k t) keyspaces

AllMigrating-Grows : (l : List String) → Grows (AllMigrating l)
AllMigrating-Grows l t u x h = All-grow Migrating l (λ k. Migrating-Grows k t u x) h

-- The phases after the checks and the question, from phase 2 on.
Emits-say-Mild : (line : String) → Emits Mild (say line)
Emits-say-Mild line = Emits-say Mild-Quiet line

Emits-say-Look : (line : String) → Emits Look (say line)
Emits-say-Look line = Emits-say Look-Quiet line

listed-Migrating :
    (l : List String) (u : List Event) (k : String)
    → All (λ k. Migrating k u) l
    → Some (λ j. j ≡ k) l
    → Migrating k u
listed-Migrating [] u k h p = elim p [ ]
listed-Migrating (j ∷ l) u k (h, hs) (here same_key) = subst (λ i. Migrating i u) same_key h
listed-Migrating (j ∷ l) u k (h, hs) (there p) = listed-Migrating l u k hs p

-- A keyspace that is to be prepared or is migrating is migrating once the former are.
All-Handled :
    (to_prepare : List String) (t u : List Event)
    → Extends Anything t u
    → All (λ k. Migrating k u) to_prepare
    → (k : String) → Handled to_prepare k t
    → Migrating k u
All-Handled to_prepare t u x h k (inr m) = Some-grow x m
All-Handled to_prepare t u x h k (inl p) = listed-Migrating to_prepare u k h p

Emits-after_preparation :
    (control : Node) (nodes : List Node) (opts : Options) (k8s : K8s)
    → Emits Anything (do
      say "\n== Phase 2: upgrading node storage =="
      for_each nodes (upgrade_node nodes opts k8s)
      ask_to_finalize opts
      finish_migration control nodes opts)
Emits-after_preparation control nodes opts k8s = Emits-bind (Emits-say Anything-Quiet _) λ _.
    Emits-bind (Emits-upgrades Anything-Quiet Anything-Changes nodes nodes opts k8s) λ _.
      Emits-bind (Emits-ask_to_finalize Anything-Quiet opts)
        λ _. Emits-finish_migration Anything-Quiet Anything-Finals control nodes opts

Emits-after_start :
    (to_prepare : List String) (control : Node) (nodes : List Node) (opts : Options) (k8s : K8s)
    → Emits Anything (do
      prepare_all control opts to_prepare
      say "\n== Phase 2: upgrading node storage =="
      for_each nodes (upgrade_node nodes opts k8s)
      ask_to_finalize opts
      finish_migration control nodes opts)
Emits-after_start to_prepare control nodes opts k8s =
    Emits-bind (Emits-prepare_all Anything-Quiet Anything-Changes.starts control opts to_prepare)
      (λ _. Emits-after_preparation control nodes opts k8s)

Emits-after_confirm :
    (control : Node) (nodes : List Node) (opts : Options) (k8s : K8s)
    → Emits Anything (do
      for_each nodes (downgrade_node control nodes opts k8s)
      finish_rollback control nodes opts)
Emits-after_confirm control nodes opts k8s =
    Emits-bind (Emits-downgrades Anything-Quiet Anything-Changes control nodes nodes opts k8s)
      (λ _. Emits-finish_rollback Anything-Quiet Anything-Finals control nodes opts)

-- Whatever the cluster, the user and the clock do: each call of `migrate` that changes the cluster
-- comes after the user agreed to the migration, by `-y` or by an answer to the first question.
pub migrate-Consent :
    (schema : Dict Keyspace) (control : Node) (nodes : List Node) (opts : Options) (k8s : K8s)
    (e : Env) (s : St)
    → Guarded IsChange
        (Consent opts.yes_ (start_prompt opts))
        s.trace
        (migrate schema control nodes opts k8s e s).1.trace
unfolding migrate
migrate-Consent schema control nodes opts k8s e s =
    guarded_bind _ _ e s (Emits-check_all Look-Quiet control schema nodes opts k8s)
      λ to_prepare s1 h1. guarded_bind _ _ e s1 (Emits-ask_to_start Look-Quiet opts) λ _ s2 h2.
        Guarded-granted (Consent-Grows opts.yes_ (start_prompt opts))
          (ask_to_start-Consent opts e s1 h2)
          ((Emits-after_start to_prepare control nodes opts k8s).at e s2)

-- Whatever the cluster, the user and the clock do: each time `migrate` marks, drains or deletes a
-- node or finalizes a keyspace, the cluster had reported each keyspace of the options to be
-- migrating to tablets.
pub migrate-AllMigrating :
    (schema : Dict Keyspace) (control : Node) (nodes : List Node) (opts : Options) (k8s : K8s)
    (e : Env) (s : St)
    → Guarded IsDisruptive
        (AllMigrating opts.keyspaces)
        s.trace
        (migrate schema control nodes opts k8s e s).1.trace
unfolding migrate
migrate-AllMigrating schema control nodes opts k8s e s =
    guarded_bind _ _ e s (Emits-check_all Mild-Quiet control schema nodes opts k8s)
      λ to_prepare s1 h1. guarded_bind _ _ e s1 (Emits-ask_to_start Mild-Quiet opts) λ _ s2 h2.
        guarded_bind _ _ e s2 (Emits-prepare_all Mild-Quiet Mild-Starts control opts to_prepare)
          λ _ s3 h3.
            let asked = Extends-run (Emits-ask_to_start Anything-Quiet opts) e s1 h2 in
            let prepared =
              Extends-run
                (Emits-prepare_all Anything-Quiet Anything-Changes.starts control opts to_prepare) e
                s2 h3 in
            let migrating =
              All-map opts.keyspaces
                (All-Handled to_prepare s1.trace s3.trace (Extends-trans asked prepared)
                  (prepare_all-Migrating control opts to_prepare e s2 h3))
                (check_all-Handled control schema nodes opts k8s e s h1) in
            Guarded-granted (AllMigrating-Grows opts.keyspaces) migrating
              ((Emits-after_preparation control nodes opts k8s).at e s3)

-- Whatever the cluster, the user and the clock do: each call of `rollback` that changes the cluster
-- comes after the cluster reported each keyspace of the options to be migrating to tablets, and
-- after the user agreed to the downgrade, by `-y` or by an answer to the question.
pub rollback-Prepared :
    (control : Node) (nodes : List Node) (opts : Options) (k8s : K8s) (e : Env) (s : St)
    → Guarded IsChange
        (λ t. AllMigrating opts.keyspaces t × Consent opts.yes_ (downgrade_prompt nodes) t)
        s.trace
        (rollback control nodes opts k8s e s).1.trace
unfolding rollback
rollback-Prepared control nodes opts k8s e s = guarded_bind _ _ e s (Emits-say-Look _) λ _ s1 h1.
    guarded_bind _ _ e s1 (Emits-unfinalized Look-Quiet control opts.keyspaces) λ _ s2 h2.
      guarded_bind _ _ e s2 (Emits-check_restart_capability Look-Quiet nodes opts k8s) λ _ s3 h3.
        guarded_bind _ _ e s3 (Emits-confirm Look-Quiet _ opts.yes_) λ sure s4 h4.
          guarded_bind _ _ e s4 (Emits-require sure (Emits-pure "aborted")) λ _ s5 h5.
            let migrating =
              for_each-All Migrating (check_unfinalized control) e Migrating-Grows
                (Emits-check_unfinalized Anything-Quiet control)
                (λ k t t' h. check_unfinalized-Migrating control k e t h) opts.keyspaces s1 h2 in
            let x =
              Extends-run (Emits-check_restart_capability Anything-Quiet nodes opts k8s) e s2 h3 in
            let y = Extends-run (Emits-confirm Anything-Quiet _ opts.yes_) e s3 h4 in
            let z = Extends-run (Emits-require sure (Emits-pure "aborted")) e s4 h5 in
            Guarded-granted
              (λ t u x (m, c). (
                AllMigrating-Grows opts.keyspaces t u x m,
                Consent-Grows opts.yes_ (downgrade_prompt nodes) t u x c,
              ))
              (
                AllMigrating-Grows opts.keyspaces s2.trace s5.trace
                    (Extends-trans x (Extends-trans y z)) migrating,
                sure-Consent (downgrade_prompt nodes) opts.yes_ sure _ e s3 h4 h5,
              )
              ((Emits-after_confirm control nodes opts k8s).at e s5)

-- Finding the nodes, the checks before a migration, and the report of `-S` send nothing that changes
-- the cluster, whether they return, raise or not.
pub inspection-Look :
    (schema : Dict Keyspace) (hosts : List Host) (control : Node) (nodes : List Node)
    (opts : Options) (k8s : K8s)
    → Emits Look (discover_nodes hosts k8s)
      × (Emits Look (check_all control schema nodes opts k8s)
          × Emits Look (print_status control nodes opts.keyspaces))
inspection-Look schema hosts control nodes opts k8s = (
  Emits-discover_nodes Look-Quiet hosts k8s,
  (
    Emits-check_all Look-Quiet control schema nodes opts k8s,
    Emits-print_status Look-Quiet control nodes opts.keyspaces,
  ),
)
