-- ===== src/Query/Main/Tally/Rounds.antt =====
-- The loop against the history (sample_app/query.py, `run_for_duration`).
use scylla_k8s_example.Base.{
  ℕ, zero, suc, ◌<>◌, ◌+◌, ◌*◌, ◌%◌, ◌&&◌, not, ◌≡◌, refl, ◌∙◌, sym, String, Bool, Option, none,
  some, [], ◌∷◌, ◌++◌, arith,
}
use scylla_k8s_example.Base.{◌==◌, nat_eq}
use scylla_k8s_example.Base.{inl, inr, ◌⊎◌, leb}
use scylla_k8s_example.Base.Text.{show_nat}
use scylla_k8s_example.Connection.{info, warning}
use scylla_k8s_example.Script.{
  logged, World, History, pure, raise, ◌>>=◌, catch, prepare, maybe, emit, slept, now,
}
use scylla_k8s_example.Query.{Runner}
use scylla_k8s_example.Query.Main.{
  Options, Outside, select_cql, prepare_queries, execute_query, log_progress, run_rounds,
  log_statistics, run_for_duration,
}
use scylla_k8s_example.Query.Main.Tally.{
  sent, errors, sent-++, errors-++, Grown, Grown-quiet, Grown-trans, Grown-refl, Holds, Holds-bind,
  Holds-if, Told,
}
use scylla_k8s_example.Query.Main.Tally.Attempts.{After, Grown-execute_query}

unprepared_cases : (e : Option String) → (e ≡ none) ⊎ ((m : String) × (e ≡ some m))
unprepared_cases none = inl refl
unprepared_cases (some m) = inr (m, refl)

module _ (opts : Options) (o : Outside) (w : World) where
  -- Lines that are no errors, and sleeping.
  abbrev Quiet : {A : Type 0} → History → A → History → Type 0
  Quiet h x h1 = (sent h1 ≡ sent h) × (errors h1 ≡ errors h)

  Quiet-log : (line : String) (h : History) → Quiet {A = Unit} h tt (h ++ (logged (info line) ∷ []))
  unfolding sent errors
  Quiet-log line h =
      let said = logged (info line) in
      (omega (arith, sent-++ h said), omega (arith, errors-++ h said))

  Quiet-slept : (millis : ℕ) (h : History) → Quiet {A = Unit} h tt (h ++ (slept millis ∷ []))
  unfolding sent errors
  Quiet-slept millis h =
      (omega (arith, sent-++ h (slept millis)), omega (arith, errors-++ h (slept millis)))

  Quiet-log_progress : (r : Runner) (h : History) → Holds (Quiet h) (log_progress opts o r w h)
  unfolding log_progress pure emit
  Quiet-log_progress r h =
      Holds-if (Quiet h) (r.query_count % 50 == 0 && not (r.query_count == 0)) _ _ w h
        (λ p. Quiet-log _ h) (λ p. (refl, refl))

  abbrev Ended : Runner → History → Option Runner → History → Type 0
  Ended r h none h1 = Unit
  Ended r h (some r1) h1 = Grown r h r1 h1

  Grown-run_rounds :
      (r0 : Runner) (h0 : History) (n round end_time : ℕ) (r : Runner) (h : History)
      → Grown r0 h0 r h
      → Holds (Ended r0 h0) (run_rounds opts o n round end_time r w h)
  unfolding run_rounds pure now ◌>>=◌ emit
  Grown-run_rounds r0 h0 zero round end_time r h g = tt
  Grown-run_rounds r0 h0 (suc n) round end_time r h g =
      Holds-if (Ended r0 h0) (leb end_time (w.now h)) _ _ w h (λ late. g)
        λ early.
          Holds-bind (After r h) (Ended r0 h0) (execute_query opts o round r) _ w h
            (Grown-execute_query opts o w round r h)
            λ (result, r1) h1 g1.
              Holds-bind (Quiet h1) (Ended r0 h0) (log_progress opts o r1) _ w h1
                (Quiet-log_progress r1 h1)
                λ x h2 (s2, e2).
                  let (s3, e3) = Quiet-slept opts.interval h2 in
                  Grown-run_rounds r0 h0 n (suc round) end_time r1
                    (h2 ++ (slept opts.interval ∷ []))
                    (Grown-quiet (Grown-trans g g1) (s3 ∙ s2) (e3 ∙ e2))

  Quiet-prepare_queries : (h : History) → Holds (Quiet h) (prepare_queries opts w h)
  unfolding prepare_queries catch ◌>>=◌ emit pure prepare raise sent errors
  Quiet-prepare_queries h = elim (unprepared_cases (w.unprepared h (select_cql opts))) [
    | inl e ↦ rw e (Quiet-log ("Prepared query: " <> select_cql opts) h)
    | inr (m, e) ↦
        let said = logged (warning ("Failed to prepare query: " <> m)) in
        rw e (omega (arith, sent-++ h said), omega (arith, errors-++ h said))
  ]

  Quiet-also :
      (line : String) (h h1 : History)
      → Quiet {A = Unit} h tt h1
      → Quiet {A = Unit} h tt (h1 ++ (logged (info line) ∷ []))
  Quiet-also line h h1 (s, e) = let (s1, e1) = Quiet-log line h1 in (s1 ∙ s, e1 ∙ e)

  Quiet-log_statistics : (r : Runner) (h : History) → Holds (Quiet h) (log_statistics opts o r w h)
  unfolding log_statistics ◌>>=◌ emit
  Quiet-log_statistics r h = Quiet-also _ h _ (
      Quiet-also _ h _
        (Quiet-also _ h _ (Quiet-also _ h _ (Quiet-also _ h _ (Quiet-also _ h _ (Quiet-log _ h))))))

  Told-reported :
      (prepared : Bool) (h h1 : History)
      → sent h1 ≡ sent h
      → errors h1 ≡ errors h
      → (result : Option Runner) (h2 : History)
      → Ended (record { prepared = prepared; query_count = 0; error_count = 0 }) h1 result h2
      → Holds
          (Told h)
          (maybe result (pure none) (λ r. log_statistics opts o r >>= λ _. pure (some r)) w h2)
  unfolding maybe pure
  Told-reported prepared h h1 s e none h2 g = tt
  Told-reported prepared h h1 s e (some r) h2 g =
      Holds-bind (Quiet h2) (Told h) (log_statistics opts o r) _ w h2 (Quiet-log_statistics r h2)
        λ x h3 (s3, e3). (
          omega (arith, g.lower, s, s3),
          (omega (arith, g.upper, s, s3), λ p. omega (arith, g.lines (sym g.kept ∙ p), e, e3)),
        )

  -- If the query runner returns its counters, whatever the database answers, it has sent at least as
  -- many statements as it counts queries and at most as many as it counts queries and errors
  -- together; and if its query was prepared, it has logged one line of an error for each error that
  -- it counts.
  pub run_for_duration-Told :
      (minutes : ℕ) (h : History) → Holds (Told h) (run_for_duration opts o minutes w h)
  unfolding run_for_duration ◌>>=◌ now emit
  run_for_duration-Told minutes h =
      let (s1, e1) =
        Quiet-log ("Starting query runner for " <> show_nat minutes <> " minutes...") h in
      let h1 =
        h
        ++ (logged (info ("Starting query runner for " <> show_nat minutes <> " minutes..."))
            ∷ []) in
      let rounds = run_rounds opts o (suc (minutes * 60000)) 0 (w.now h1 + minutes * 60000000) in
      Holds-bind (Quiet h1) (Told h) (prepare_queries opts) _ w h1 (Quiet-prepare_queries h1)
        λ prepared h2 (s2, e2).
          let start : Runner = record { prepared = prepared; query_count = 0; error_count = 0 } in
          Holds-bind (Ended start h2) (Told h) (rounds start) _ w h2
            (Grown-run_rounds start h2 _ 0 _ start h2 (Grown-refl start h2))
            λ result h3 g. Told-reported prepared h h2 (s2 ∙ s1) (e2 ∙ e1) result h3 g
