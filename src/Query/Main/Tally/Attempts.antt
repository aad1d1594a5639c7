-- ===== src/Query/Main/Tally/Attempts.antt =====
-- One attempt against the history (sample_app/query.py, `execute_query`).
use scylla_k8s_example.Base.{
  ℕ, suc, ◌<>◌, ◌+◌, ◌≤◌, ◌≡◌, refl, ◌∙◌, sym, String, Bool, true, Option, none, some, List, [],
  ◌∷◌, ◌++◌, arith,
}
use scylla_k8s_example.Base.{length, nat_eq}
use scylla_k8s_example.Base.{Bool-cases, inl, inr, ltb}
use scylla_k8s_example.Base.Text.{show_nat}
use scylla_k8s_example.Connection.{info, error}
use scylla_k8s_example.Script.{
  Value, num, executed, logged, Reply, rows, failure, World, History, Outcome, ok, raised, exited,
  pure, raise, exit, ◌>>=◌, attempt, maybe, emit, answered, execute,
}
use scylla_k8s_example.Query.{Runner}
use scylla_k8s_example.Query.Main.{
  Options, Outside, select_cql, sample_line, key_in, look_up, fail, show_sample, report,
  execute_query,
}
use scylla_k8s_example.Query.Main.Tally.{sent, errors, sent-++, errors-++, Grown, Holds, Holds-if}

-- The look-up alone: an answer takes one statement, and no line of an error is written.
abbrev pub Looks : History → Outcome (List (List Value)) × History → Type 0
Looks h (ok l, h1) = (sent h1 ≡ suc (sent h)) × (errors h1 ≡ errors h)
Looks h (raised m, h1) = (sent h ≤ sent h1) × ((sent h1 ≤ suc (sent h)) × (errors h1 ≡ errors h))
Looks h (exited code, h1) = ⊥

Looks-answered :
    (x : Reply) (w : World) (h h1 : History)
    → sent h1 ≡ suc (sent h)
    → errors h1 ≡ errors h
    → Looks h (answered x w h1)
unfolding pure raise
Looks-answered (rows l) w h h1 s e = (s, e)
Looks-answered (failure m) w h h1 s e = (omega (arith, s), (omega (arith, s), e))

abbrev pub After : Runner → History → Bool × Runner → History → Type 0
After r h (result, r1) h1 = Grown r h r1 h1

module _ (opts : Options) (o : Outside) (w : World) where
  pub look_up-Looks : (round : ℕ) (h : History) → Looks h (look_up opts o round w h)
  unfolding look_up raise ◌>>=◌ emit execute sent errors
  look_up-Looks round h = elim (Bool-cases (ltb opts.row_count 1)) [
    | inl few ↦ rw few (omega arith, (omega arith, refl))
    | inr enough ↦
        let (b, rid) = key_in opts o round in
        let said = logged (info ("Querying bucket=" <> show_nat b <> " id=" <> show_nat rid)) in
        let sending = executed (select_cql opts) (num b ∷ num rid ∷ []) in
        let h1 = h ++ (said ∷ []) in
        rw enough (
          Looks-answered (w.answer h1 (select_cql opts) (num b ∷ num rid ∷ [])) w h
            (h1 ++ (sending ∷ [])) (omega (arith, sent-++ h said, sent-++ h1 sending))
            (omega (arith, errors-++ h said, errors-++ h1 sending)))
  ]

  -- `before` is the runner of the start, and `r` the one that may have counted the answer.
  Grown-fail :
      (before r : Runner) (e : String) (h h1 : History)
      → r.prepared ≡ before.prepared
      → r.error_count ≡ before.error_count
      → sent h + r.query_count ≤ sent h1 + before.query_count
      → sent h1 + before.query_count ≤ sent h + r.query_count + 1
      → errors h1 ≡ errors h
      → Holds (After before h) (fail opts o r e w h1)
  unfolding fail pure ◌>>=◌ emit sent errors
  Grown-fail before r e h h1 kept same lower upper lines =
      let said = logged (error ("Query #" <> show_nat (r.query_count + 1) <> " failed: " <> e)) in
      record {
        kept = kept;
        lower = omega (arith, lower, sent-++ h1 said);
        upper = omega (arith, upper, same, sent-++ h1 said);
        lines = λ p. omega (arith, lines, same, errors-++ h1 said);
      }

  -- The rest of an attempt once an answer is counted, from the history that the answer left.
  module _ (before : Runner) (h h1 : History) (answer : sent h1 ≡ suc (sent h))
      (quiet : errors h1 ≡ errors h) where
    abbrev counted : Runner
    counted = record before { query_count = before.query_count + 1 }

    Grown-logged : (line : String) → Grown before h counted (h1 ++ (logged (info line) ∷ []))
    unfolding sent errors
    Grown-logged line =
        let said = logged (info line) in
        record {
          kept = refl;
          lower = omega (arith, answer, sent-++ h1 said);
          upper = omega (arith, answer, sent-++ h1 said);
          lines = λ p. omega (arith, quiet, errors-++ h1 said);
        }

    Grown-sampled :
        (sample : Option String)
        → Holds (After before h) (
            maybe sample
              (fail opts o counted "Row has no such attribute")
              (λ line. emit (logged (info line)) >>= λ _. pure (true, counted))
              w
              h1)
    unfolding maybe ◌>>=◌ emit pure
    Grown-sampled none =
        Grown-fail before counted "Row has no such attribute" h h1 refl refl (omega (arith, answer))
          (omega (arith, answer)) quiet
    Grown-sampled (some line) = Grown-logged line

    Grown-show_sample :
        (l : List (List Value)) → Holds (After before h) (show_sample opts o l counted w h1)
    unfolding show_sample ◌>>=◌ emit pure
    Grown-show_sample [] = Grown-logged "No rows returned from main table"
    Grown-show_sample (row ∷ l) = Grown-sampled (sample_line o row)

  Grown-report :
      (round : ℕ) (r : Runner) (h : History) (x : Outcome (List (List Value)) × History)
      → Looks h x
      → Holds (After r h) (report opts o round r x.0 w x.1)
  unfolding report ◌>>=◌ emit exit sent errors
  Grown-report round r h (ok l, h1) (answer, quiet) =
      let (b, rid) = key_in opts o round in
      let said = logged (
        info (
          "Query #"
          <> show_nat (r.query_count + 1)
          <> " bucket="
          <> show_nat b
          <> " id="
          <> show_nat rid
          <> " -> "
          <> show_nat (length l)
          <> " rows")) in
      Grown-show_sample r h (h1 ++ (said ∷ [])) (omega (arith, answer, sent-++ h1 said))
        (omega (arith, quiet, errors-++ h1 said)) l
  Grown-report round r h (raised e, h1) (least, (most, quiet)) =
      Grown-fail r r e h h1 refl refl (omega (arith, least)) (omega (arith, most)) quiet
  Grown-report round r h (exited code, h1) k = absurd k

  pub Grown-execute_query :
      (round : ℕ) (r : Runner) (h : History) → Holds (After r h) (execute_query opts o round r w h)
  unfolding execute_query attempt pure ◌>>=◌ emit sent errors
  Grown-execute_query round r h =
      Holds-if (After r h) r.prepared _ _ w h
        (λ p. Grown-report round r h (look_up opts o round w h) (look_up-Looks round h))
        (λ p.
          let said = logged (error "No prepared query available") in
          record {
            kept = refl;
            lower = omega (arith, sent-++ h said);
            upper = omega (arith, sent-++ h said);
            lines = λ q. cc (sym p ∙ q);
          })
