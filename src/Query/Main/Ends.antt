-- ===== src/Query/Main/Ends.antt =====
-- The end of the loop of the query runner (sample_app/query.py, `run_for_duration`).
use scylla_k8s_example.Base.{
  ◌<>◌, ℕ, zero, suc, ◌+◌, ◌*◌, ◌≤◌, ◌<◌, String, Option, none, some, List, [], ◌∷◌, arith,
}
use scylla_k8s_example.Base.{Bool-cases, inl, inr, leb, leb-false→lt}
use scylla_k8s_example.Script.{
  Value, World, History, Outcome, ok, raised, exited, Script, pure, raise, exit, continue, ◌>>=◌,
  emit, logged, slept, now, maybe,
}
use scylla_k8s_example.Script.Clock.{
  Ticks, Onward, Onward-exit, Onward-emit, Onward-execute, Onward-prepare, onward_rules,
}
use scylla_k8s_example.Base.Text.{show_nat}
use scylla_k8s_example.Connection.{info}
use scylla_k8s_example.Query.{Runner}
use scylla_k8s_example.Query.Main.{
  Options, Outside, prepare_queries, look_up, fail, show_sample, report, execute_query,
  log_progress, run_rounds, log_statistics, run_for_duration,
}

-- The rounds were enough: the run has a runner, or has raised or exited.
abbrev pub Enough : Outcome (Option Runner) → Type 0
Enough (ok none) = ⊥
Enough (ok (some r)) = Unit
Enough (raised m) = Unit
Enough (exited code) = Unit

module _ {A : Type 0} where
  went_on :
      (r : Outcome A) (f : A → Script (Option Runner)) (w : World) (h : History)
      → ((a : A) → Enough (f a w h).0)
      → Enough (continue r f w h).0
  unfolding raise exit
  went_on (ok a) f w h k = k a
  went_on (raised m) f w h k = tt
  went_on (exited code) f w h k = tt

  -- A step, and what follows it from where it ended.
  stepped :
      (m : Script A) (f : A → Script (Option Runner)) (w : World) (h : History)
      → ((a : A) → Enough (f a w (m w h).1).0)
      → Enough ((m >>= f) w h).0
  unfolding ◌>>=◌
  stepped m f w h k = let (r, h1) = m w h in went_on r f w h1 k

module _ {w : World} (c : Ticks w) (opts : Options) (o : Outside) where
  Onward-look_up : (round : ℕ) → Onward w (look_up opts o round)
  unfolding look_up
  Onward-look_up round = search (onward_rules, Onward-emit c, Onward-execute c) depth 8

  Onward-fail : (r : Runner) (e : String) → Onward w (fail opts o r e)
  unfolding fail
  Onward-fail r e = search (onward_rules, Onward-emit c) depth 8

  Onward-show_sample : (l : List (List Value)) (r : Runner) → Onward w (show_sample opts o l r)
  unfolding show_sample
  Onward-show_sample [] r = search (onward_rules, Onward-emit c) depth 8
  Onward-show_sample (row ∷ l) r = search (onward_rules, Onward-emit c, Onward-fail) depth 8

  Onward-report :
      (round : ℕ) (r : Runner) (x : Outcome (List (List Value)))
      → Onward w (report opts o round r x)
  unfolding report
  Onward-report round r (ok l) = search (onward_rules, Onward-emit c, Onward-show_sample) depth 8
  Onward-report round r (raised e) = Onward-fail r e
  Onward-report round r (exited code) = Onward-exit code

  Onward-execute_query : (round : ℕ) (r : Runner) → Onward w (execute_query opts o round r)
  unfolding execute_query
  Onward-execute_query round r =
      search (onward_rules, Onward-emit c, Onward-look_up, Onward-report) depth 10

  Onward-log_progress : (r : Runner) → Onward w (log_progress opts o r)
  unfolding log_progress
  Onward-log_progress r = search (onward_rules, Onward-emit c) depth 8

  asleep :
      (h h1 h2 : History)
      → w.now h ≤ w.now h1
      → w.now h1 ≤ w.now h2
      → w.now h + opts.interval * 1000 ≤ w.now (emit (slept opts.interval) w h2).1
  unfolding emit
  asleep h h1 h2 a b = omega (arith, a, b, c.sleeps h2 opts.interval)

  -- A round is enough if the rounds after it are, which start before the end and a sleep later.
  one_round :
      (n round end_time : ℕ) (r : Runner) (h : History)
      → ((r1 : Runner) (h3 : History)
          → w.now h < end_time
          → w.now h + opts.interval * 1000 ≤ w.now h3
          → Enough (run_rounds opts o n (suc round) end_time r1 w h3).0)
      → Enough (run_rounds opts o (suc n) round end_time r w h).0
  unfolding run_rounds now ◌>>=◌ pure
  one_round n round end_time r h k = elim (Bool-cases (leb end_time (w.now h))) [
    | inl late ↦ rw late tt
    | inr early ↦
        let before = leb-false→lt end_time (w.now h) early in
        rw early (
          stepped (execute_query opts o round r) _ w h λ (result, r1).
            let h1 = (execute_query opts o round r w h).1 in
            stepped (log_progress opts o r1) _ w h1 λ _.
              let h2 = (log_progress opts o r1 w h1).1 in
              stepped (emit (slept opts.interval)) _ w h2 λ _. k r1 _ before (
                asleep h h1 h2 ((Onward-execute_query round r).at h)
                  ((Onward-log_progress r1).at h1)))
  ]

  -- `n` milliseconds before the end, `n + 1` rounds are enough.
  run_rounds-Enough :
      1 ≤ opts.interval
      → (n round end_time : ℕ) (r : Runner) (h : History) → end_time ≤ w.now h + n * 1000
      → Enough (run_rounds opts o (suc n) round end_time r w h).0
  run_rounds-Enough one zero round end_time r h near =
      one_round zero round end_time r h (λ r1 h3 before later. absurd (omega (arith, before, near)))
  run_rounds-Enough one (suc n) round end_time r h near =
      one_round (suc n) round end_time r h λ r1 h3 before later.
        run_rounds-Enough one n (suc round) end_time r1 h3 (omega (arith, near, later, one))

  Onward-prepare_queries : Onward w (prepare_queries opts)
  unfolding prepare_queries
  Onward-prepare_queries = search (onward_rules, Onward-emit c, Onward-prepare c) depth 10

  reported :
      (x : Outcome (Option Runner)) (h : History)
      → Enough x
      → Enough
          (continue x
            (λ result.
              maybe result (pure none) (λ r. log_statistics opts o r >>= λ _. pure (some r)))
            w
            h).0
  unfolding raise exit maybe pure
  reported (ok none) h k = k
  reported (ok (some r)) h k = stepped (log_statistics opts o r) _ w h (λ _. tt)
  reported (raised m) h k = tt
  reported (exited code) h k = tt

  -- If the clock never goes back and a sleep takes its time, the loop of the query runner reaches its
  -- end, for every duration and every interval of at least a millisecond, whatever the database
  -- answers.
  pub run_for_duration-Enough :
      1 ≤ opts.interval
      → (minutes : ℕ) (h : History) → Enough (run_for_duration opts o minutes w h).0
  unfolding run_for_duration now ◌>>=◌
  run_for_duration-Enough one minutes h =
      let started =
        emit (logged (info ("Starting query runner for " <> show_nat minutes <> " minutes..."))) in
      stepped started _ w h λ _.
        let h1 = (started w h).1 in
        stepped (prepare_queries opts) _ w h1 λ prepared.
          let h2 = (prepare_queries opts w h1).1 in
          let rounds =
            run_rounds-Enough one (minutes * 60000) 0 (w.now h1 + minutes * 60000000) _ h2
              (omega (arith, Onward-prepare_queries.at h1)) in
          reported _ _ rounds
