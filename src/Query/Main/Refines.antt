-- ===== src/Query/Main/Refines.antt =====
-- The attempt in the session and the attempt of the counters alone (sample_app/query.py,
-- `execute_query`).
use scylla_k8s_example.Base.{
  ℕ, suc, ◌+◌, ◌≡◌, refl, ◌∙◌, sym, ap, String, Bool, true, false, Option, none, some, List, [],
  ◌∷◌,
}
use scylla_k8s_example.Base.{if◌then◌else◌, Bool-cases, inl, inr, length}
use scylla_k8s_example.Script.{
  Value, World, History, Outcome, ok, raised, exited, Script, pure, ◌>>=◌, attempt, maybe, emit,
  log,
}
use scylla_k8s_example.Query.{Runner, Attempt, rows, exception, unreadable}
use scylla_k8s_example.Query
use scylla_k8s_example.Query.Main.{
  Options, Outside, sample_line, look_up, fail, show_sample, report, execute_query,
}
use scylla_k8s_example.Query.Main.Tally.Attempts.{Looks, look_up-Looks}

if_true : {A : Type 0} (b : Bool) (x y : A) → b ≡ true → (if b then x else y) ≡ x
if_true true x y p = refl
if_true false x y p = cc p

if_false : {A : Type 0} (b : Bool) (x y : A) → b ≡ false → (if b then x else y) ≡ y
if_false true x y p = cc p
if_false false x y p = refl

unprepared : (a : Attempt) (r : Runner) → r.prepared ≡ false → Query.execute_query a r ≡ (false, r)
unfolding Query.execute_query
unprepared (rows drawn n) r p = if_false r.prepared _ _ p
unprepared (exception drawn) r p = if_false r.prepared _ _ p
unprepared (unreadable drawn) r p = if_false r.prepared _ _ p

module _ (opts : Options) (o : Outside) where
  -- What an attempt has met whose look-up had this result.
  abbrev sampled : ℕ → ℕ → Option String → Attempt
  sampled drawn n none = unreadable drawn
  sampled drawn n (some line) = rows drawn n

  unfoldable pub met : ℕ → Outcome (List (List Value)) → Attempt
  met round (ok []) = rows (o.drawn round) 0
  met round (ok (row ∷ l)) = sampled (o.drawn round) (suc (length l)) (sample_line o row)
  met round (raised e) = exception (o.drawn round)
  met round (exited code) = exception (o.drawn round)

  module _ (w : World) where
    sampled-lem :
        (drawn n : ℕ) (sample : Option String) (r : Runner) (h : History)
        → r.prepared ≡ true
        → (let counted = record r { query_count = r.query_count + 1 } in
            (maybe sample
              (fail opts o counted "Row has no such attribute")
              (λ line. log line >>= λ _. pure (true, counted))
              w
              h).0
            ≡ ok (Query.execute_query (sampled drawn n sample) r))
    unfolding maybe fail ◌>>=◌ emit pure Query.execute_query
    sampled-lem drawn n none r h p = ap ok (sym (if_true r.prepared _ _ p))
    sampled-lem drawn n (some line) r h p = ap ok (sym (if_true r.prepared _ _ p))

    report-lem :
        (round : ℕ) (r : Runner) (h : History) (x : Outcome (List (List Value)) × History)
        → Looks h x
        → r.prepared ≡ true
        → (report opts o round r x.0 w x.1).0 ≡ ok (Query.execute_query (met round x.0) r)
    unfolding report show_sample fail met ◌>>=◌ emit pure Query.execute_query
    report-lem round r h (ok [], h1) k p = ap ok (sym (if_true r.prepared _ _ p))
    report-lem round r h (ok (row ∷ l), h1) k p =
        sampled-lem (o.drawn round) (suc (length l)) (sample_line o row) r _ p
    report-lem round r h (raised e, h1) k p = ap ok (sym (if_true r.prepared _ _ p))
    report-lem round r h (exited code, h1) k p = absurd k

    -- An attempt of the query runner in a session always returns, and what it returns is what the
    -- attempt alone gives for the result that its look-up has from the database.
    pub execute_query-met :
        (round : ℕ) (r : Runner) (h : History)
        → (execute_query opts o round r w h).0
          ≡ ok (Query.execute_query (met round (look_up opts o round w h).0) r)
    unfolding execute_query attempt pure ◌>>=◌ emit
    execute_query-met round r h =
        let x = look_up opts o round w h in
        elim (Bool-cases r.prepared) [
          | inl p ↦
              ap (λ (m : Script (Bool × Runner)). (m w h).0) (if_true r.prepared _ _ p)
              ∙ report-lem round r h x (look_up-Looks opts o w round h) p
          | inr p ↦
              ap (λ (m : Script (Bool × Runner)). (m w h).0) (if_false r.prepared _ _ p)
              ∙ ap ok (sym (unprepared (met round x.0) r p))
        ]
