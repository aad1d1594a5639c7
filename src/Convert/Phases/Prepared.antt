-- ===== src/Convert/Phases/Prepared.antt =====
-- What the cluster has reported of the keyspaces when a phase goes on
-- (sample_app/convert_to_tablets.py, `check_unfinalized`, `triage`, `prepare`).
use scylla_k8s_example.Base.{◌≡◌, sym, subst, String, List, [], ◌∷◌, All, All-map, if◌then◌else◌}
use scylla_k8s_example.Base.{ℕ, Bool, true, Bool-cases, inl, inr, ◌⊎◌}
use scylla_k8s_example.Base.Dict.{Dict}
use mathlib.Core.Path.{subst₂}
use scylla_k8s_example.Json.{Json, is_text}
use scylla_k8s_example.Exec.{ok, Event, Env, St, Exec, pure, say}
use scylla_k8s_example.Exec.Emits.{Extends-run, Extends-trans, Emits-if, Emits-pure}
use scylla_k8s_example.Exec.Guarded.{Grows, for_each-All}
use scylla_k8s_example.Exec.Steps.{
  bind-ok, pure-ok, raise≢ok, try_catch-ok, Some, Some-grow, Some-append, Some-last,
}
use scylla_k8s_example.Convert.Api.{Anything-Quiet, Emits-say}
use scylla_k8s_example.Convert.Kube.{K8s}
use scylla_k8s_example.Convert.Nodes.{Node}
use scylla_k8s_example.Convert.Preflight.Schema.{Keyspace}
use scylla_k8s_example.Convert.Restart.{Options, require}
use scylla_k8s_example.Convert.Status.States.{InState, ks_state-InState}
use scylla_k8s_example.Convert.Phases.{
  check_unfinalized, Triage, state_or_fatal, triage_keyspace, triage,
}
use scylla_k8s_example.Convert.Phases.{check_all, prepare, prepare_all}
use scylla_k8s_example.Convert.Phases.Guards.{require-ok}
use scylla_k8s_example.Convert.Phases.Effects.{
  Emits-triage_keyspace, Emits-triage, Emits-prepare, Anything-Changes,
}

abbrev pub Migrating : String → List Event → Type 0
Migrating keyspace t = InState "migrating_to_tablets" keyspace t

pub Migrating-Grows : (keyspace : String) → Grows (Migrating keyspace)
Migrating-Grows keyspace t u x h = Some-grow x h

pub check_unfinalized-Migrating :
    (control : Node) (keyspace : String) (e : Env) (s : St) {s' : St}
    → check_unfinalized control keyspace e s ≡ (ok tt, s')
    → Migrating keyspace s'.trace
unfolding check_unfinalized
check_unfinalized-Migrating control keyspace e s h =
    let (state, s1, h1, h2) = bind-ok _ _ h in
    let (is_migrating, same_s) = require-ok _ _ e s1 h2 in
    subst (λ (u : St). Migrating keyspace u.trace) (sym same_s)
      (ks_state-InState control keyspace "migrating_to_tablets" e s h1 is_migrating)

prepare-Migrating :
    (control : Node) (timeout : ℕ) (keyspace : String) (e : Env) (s : St) {s' : St}
    → prepare control timeout keyspace e s ≡ (ok tt, s')
    → Migrating keyspace s'.trace
unfolding prepare
prepare-Migrating control timeout keyspace e s h =
    let (_, s1, h1, h2) = bind-ok _ _ h in
    let (_, s2, h3, h4) = bind-ok _ _ h2 in
    let (state, s3, h5, h6) = bind-ok _ _ h4 in
    let (_, s4, h7, h8) = bind-ok _ _ h6 in
    let (is_migrating, same_s) = require-ok _ _ e s3 h7 in
    Migrating-Grows keyspace s4.trace _ (Extends-run (Emits-say Anything-Quiet _) e s4 h8) (
      subst (λ (u : St). Migrating keyspace u.trace) (sym same_s)
        (ks_state-InState control keyspace "migrating_to_tablets" e s2 h5 is_migrating))

pub prepare_all-Migrating :
    (control : Node) (opts : Options) (l : List String) (e : Env) (s : St) {s' : St}
    → prepare_all control opts l e s ≡ (ok tt, s')
    → All (λ k. Migrating k s'.trace) l
unfolding prepare_all
prepare_all-Migrating control opts [] e s h = tt
prepare_all-Migrating control opts (k ∷ l) e s h =
    let (_, s1, h1, h2) = bind-ok _ _ h in
    for_each-All Migrating (prepare control opts.state_timeout) e Migrating-Grows
      (Emits-prepare Anything-Quiet Anything-Changes.starts control opts.state_timeout)
      (λ k t t' h. prepare-Migrating control opts.state_timeout k e t h) (k ∷ l) s1 h2

-- A keyspace is to be prepared, or it has been already.
abbrev pub Handled : List String → String → List Event → Type 0
Handled to_prepare k t = Some (λ j. j ≡ k) to_prepare ⊎ Migrating k t

-- The second list has the items of the first.
abbrev Keeps : List String → List String → Type 0
Keeps l m = (k : String) → Some (λ j. j ≡ k) l → Some (λ j. j ≡ k) m

module _ (schema : Dict Keyspace) (nodes : List Node) (counters_ok enforced : Bool) where
  triage_keyspace-Handled :
      (keyspace : String) (state : Json) (t : Triage) (e : Env) (s : St) {s' : St} {t' : Triage}
      → triage_keyspace schema nodes counters_ok enforced keyspace state t e s ≡ (ok t', s')
      → Keeps t.to_prepare t'.to_prepare
        × (Some (λ j. j ≡ keyspace) t'.to_prepare ⊎ (is_text state "migrating_to_tablets" ≡ true))
  unfolding triage_keyspace
  triage_keyspace-Handled keyspace state t e s {s'} {t'} h =
      elim (Bool-cases (is_text state "vnodes")) [
        | inl v ↦
            let (passed, s1, h1, h2) = bind-ok _ _ (rw v at h) in
            let (same_t, _) = pure-ok _ e s1 h2 in
            (
              λ k p.
                  subst (λ (u : Triage). Some (λ j. j ≡ k) u.to_prepare) same_t
                    (Some-append t.to_prepare (keyspace ∷ []) p),
              inl (
                  subst (λ (u : Triage). Some (λ j. j ≡ keyspace) u.to_prepare) same_t
                    (Some-last keyspace t.to_prepare)),
            )
        | inr v ↦ elim (Bool-cases (is_text state "migrating_to_tablets")) [
          | inl m ↦
              let (_, s1, h1, h2) = bind-ok _ _ (rw m at rw v at h) in
              let (same_t, _) = pure-ok _ e s1 h2 in
              (λ k p. subst (λ (u : Triage). Some (λ j. j ≡ k) u.to_prepare) same_t p, inr m)
          | inr m ↦ elim (Bool-cases (is_text state "tablets")) [
            | inl x ↦ absurd (raise≢ok _ e s (rw x at rw m at rw v at h))
            | inr x ↦ absurd (raise≢ok _ e s (rw x at rw m at rw v at h))
          ]
        ]
      ]

  triage-Handled :
      (control : Node) (l : List String) (t : Triage) (e : Env) (s : St) {s' : St} {t' : Triage}
      → triage control schema nodes counters_ok enforced l t e s ≡ (ok t', s')
      → Keeps t.to_prepare t'.to_prepare × All (λ k. Handled t'.to_prepare k s'.trace) l
  unfolding triage state_or_fatal
  triage-Handled control [] t e s h =
      let (same_t, _) = pure-ok t e s h in
      (λ k p. subst (λ (u : Triage). Some (λ j. j ≡ k) u.to_prepare) same_t p, tt)
  triage-Handled control (k ∷ l) t e s {s'} {t'} h =
      let (state, s1, h1, h2) = bind-ok _ _ h in
      let (more, s2, h3, h4) = bind-ok _ _ h2 in
      let read = try_catch-ok _ _ _ e s h1 in
      let (keeps, handled) = triage_keyspace-Handled k state t e s1 h3 in
      let (keeps', rest) = triage-Handled control l more e s2 h4 in
      let grown =
        Extends-run
          (Emits-triage_keyspace Anything-Quiet schema nodes counters_ok enforced k state t) e s1
          h3 in
      let grown' =
        Extends-run (Emits-triage Anything-Quiet control schema nodes counters_ok enforced l more) e
          s2 h4 in
      (
        λ j p. keeps' j (keeps j p),
        (
          elim handled [
            | inl p ↦ inl (keeps' k p)
            | inr m ↦ inr (
                Some-grow grown'
                  (Some-grow grown (ks_state-InState control k "migrating_to_tablets" e s read m)))
          ],
          rest,
        ),
      )

-- The lines between the triage and the end of the checks change nothing of it.
checked-Handled :
    (opts : Options) (t : Triage) (e : Env) (s7 : St) (b : Bool) (m : Exec String)
    (line last : String) {s8 s9 s10 s' : St} {to_prepare : List String}
    → require b m e s7 ≡ (ok tt, s8)
    → (if t.blocked then say line else pure tt) e s8 ≡ (ok tt, s9)
    → say last e s9 ≡ (ok tt, s10)
    → pure t.to_prepare e s10 ≡ (ok to_prepare, s')
    → All (λ k. Handled t.to_prepare k s7.trace) opts.keyspaces
    → All (λ k. Handled to_prepare k s'.trace) opts.keyspaces
checked-Handled opts t e s7 b m line last {s8} {s9} {s10} {s'} {to_prepare} h8 h9 h10 r10 handled =
    let (_, same_s) = require-ok b m e s7 h8 in
    let (same_list, same_s') = pure-ok _ e s10 r10 in
    let x =
      Extends-run (Emits-if t.blocked (Emits-say Anything-Quiet line) (Emits-pure tt)) e s8 h9 in
    let y = Extends-run (Emits-say Anything-Quiet last) e s9 h10 in
    let grow = λ (k : String) (h : Handled t.to_prepare k s7.trace).
      elim h as (λ _. Handled t.to_prepare k s10.trace) [
        | inl p ↦ inl p
        | inr p ↦
            inr (
              Some-grow (Extends-trans x y)
                (subst (λ (u : St). Migrating k u.trace) (sym same_s) p))
      ] in
    subst₂ (λ l (u : St). All (λ k. Handled l k u.trace) opts.keyspaces) same_list (sym same_s')
      (All-map opts.keyspaces grow handled)

-- After the checks, each keyspace of the options is to be prepared or has been already.
pub check_all-Handled :
    (control : Node) (schema : Dict Keyspace) (nodes : List Node) (opts : Options) (k8s : K8s)
    (e : Env) (s : St) {s' : St} {to_prepare : List String}
    → check_all control schema nodes opts k8s e s ≡ (ok to_prepare, s')
    → All (λ k. Handled to_prepare k s'.trace) opts.keyspaces
unfolding check_all
check_all-Handled control schema nodes opts k8s e s h =
    let (_, s1, h1, r1) = bind-ok _ _ h in
    let (up, s2, h2, r2) = bind-ok _ _ r1 in
    let (_, s3, h3, r3) = bind-ok _ _ r2 in
    let (_, s4, h4, r4) = bind-ok _ _ r3 in
    let (counters_ok, s5, h5, r5) = bind-ok _ _ r4 in
    let (enforced, s6, h6, r6) = bind-ok _ _ r5 in
    let (t, s7, h7, r7) = bind-ok _ _ r6 in
    let (_, s8, h8, r8) = bind-ok _ _ r7 in
    let (_, s9, h9, r9) = bind-ok _ _ r8 in
    let (_, s10, h10, r10) = bind-ok _ _ r9 in
    let handled =
      (triage-Handled schema nodes counters_ok enforced control opts.keyspaces _ e s6 h7).1 in
    checked-Handled opts t e s7 _ _ _ _ h8 h9 h10 r10 handled
