-- ===== src/Query/Main/Tally.antt =====
-- What the counters of the query runner are compared with: its history (sample_app/query.py,
-- `execute_query`, `run_for_duration`).
pub mod Attempts
pub mod Rounds
use scylla_k8s_example.Base.{
  ℕ, zero, suc, ◌<>◌, ◌+◌, ◌*◌, ◌%◌, ◌&&◌, not, ◌≤◌, ◌≡◌, refl, ◌∙◌, sym, String, Bool, true, false,
  Option, none, some, List, [], ◌∷◌, ◌++◌, arith,
}
use scylla_k8s_example.Base.{length, ◌==◌, nat_eq}
use scylla_k8s_example.Base.{if◌then◌else◌, Bool-cases, inl, inr, ◌⊎◌, ltb, leb}
use scylla_k8s_example.Base.Text.{show_nat}
use scylla_k8s_example.Connection.{info, warning, error}
use scylla_k8s_example.Script.{
  Value, num, Event, executed, logged, Reply, rows, failure, World, History, Outcome, ok, raised,
  exited, Script, pure, raise, exit, continue, ◌>>=◌, catch, prepare, attempt, maybe, emit, slept,
  now, answered, execute,
}
use scylla_k8s_example.Query.{Runner}
use scylla_k8s_example.Query.Main.{
  Options, Outside, select_cql, sample_line, prepare_queries, key_in, look_up, fail, show_sample,
  report, execute_query, log_progress, run_rounds, log_statistics, run_for_duration,
}

-- The statements that were sent, and the lines of errors.
unfoldable pub sent : History → ℕ
sent [] = 0
sent (executed s values ∷ h) = suc (sent h)
sent (ev ∷ h) = sent h

unfoldable pub errors : History → ℕ
errors [] = 0
errors (logged (error line) ∷ h) = suc (errors h)
errors (ev ∷ h) = errors h

-- An event adds what it adds to nothing.
pub sent-++ : (h : History) (ev : Event) → sent (h ++ (ev ∷ [])) ≡ sent h + sent (ev ∷ [])
unfolding sent
sent-++ [] ev = omega arith
sent-++ (executed s values ∷ h) ev = omega (arith, sent-++ h ev)
sent-++ (ev1 ∷ h) ev = sent-++ h ev

pub errors-++ : (h : History) (ev : Event) → errors (h ++ (ev ∷ [])) ≡ errors h + errors (ev ∷ [])
unfolding errors
errors-++ [] ev = omega arith
errors-++ (logged (error line) ∷ h) ev = omega (arith, errors-++ h ev)
errors-++ (ev1 ∷ h) ev = errors-++ h ev

-- From one history to another the counters have grown with the events between: each answer is
-- counted, a statement that was sent has an answer or an error, and each error has its line.
pub record Grown (r : Runner) (h : History) (r1 : Runner) (h1 : History) : Type 0 where
  pub kept : r1.prepared ≡ r.prepared
  pub lower : sent h + r1.query_count ≤ sent h1 + r.query_count
  pub upper : sent h1 + (r.query_count + r.error_count) ≤ sent h + (r1.query_count + r1.error_count)
  pub lines : r.prepared ≡ true → errors h1 + r.error_count ≡ errors h + r1.error_count

module _ {r0 r : Runner} {h0 h : History} (g : Grown r0 h0 r h) where
  pub Grown-quiet : {h1 : History} → sent h1 ≡ sent h → errors h1 ≡ errors h → Grown r0 h0 r h1
  Grown-quiet s e = record {
    kept = g.kept;
    lower = omega (arith, g.lower, s);
    upper = omega (arith, g.upper, s);
    lines = λ p. omega (arith, g.lines p, e);
  }

  pub Grown-trans : {r1 : Runner} {h1 : History} → Grown r h r1 h1 → Grown r0 h0 r1 h1
  Grown-trans g1 = record {
    kept = g1.kept ∙ g.kept;
    lower = omega (arith, g.lower, g1.lower);
    upper = omega (arith, g.upper, g1.upper);
    lines = λ p. omega (arith, g.lines p, g1.lines (g.kept ∙ p));
  }

pub Grown-refl : (r : Runner) (h : History) → Grown r h r h
Grown-refl r h = record { kept = refl; lower = omega arith; upper = omega arith; lines = λ p. refl }

-- What a result has to satisfy, with the history that it left.
abbrev pub Holds : {A : Type 0} → (A → History → Type 0) → Outcome A × History → Type 0
Holds P (ok a, h) = P a h
Holds P (raised m, h) = Unit
Holds P (exited code, h) = Unit

module _ {A B : Type 0} (Q : A → History → Type 0) (P : B → History → Type 0) where
  Holds-continue :
      (x : Outcome A × History) (f : A → Script B) (w : World)
      → Holds Q x
      → ((a : A) (h1 : History) → Q a h1 → Holds P (f a w h1))
      → Holds P (continue x.0 f w x.1)
  unfolding raise exit
  Holds-continue (ok a, h) f w q k = k a h q
  Holds-continue (raised m, h) f w q k = tt
  Holds-continue (exited code, h) f w q k = tt

  pub Holds-bind :
      (m : Script A) (f : A → Script B) (w : World) (h : History)
      → Holds Q (m w h)
      → ((a : A) (h1 : History) → Q a h1 → Holds P (f a w h1))
      → Holds P ((m >>= f) w h)
  unfolding ◌>>=◌
  Holds-bind m f w h q k = Holds-continue (m w h) f w q k

pub Holds-if :
    {A : Type 0} (P : A → History → Type 0) (b : Bool) (m n : Script A) (w : World) (h : History)
    → (b ≡ true → Holds P (m w h))
    → (b ≡ false → Holds P (n w h))
    → Holds P ((if b then m else n) w h)
Holds-if P true m n w h then_ else_ = then_ refl
Holds-if P false m n w h then_ else_ = else_ refl

-- What the counters of the end say of the whole run.
abbrev pub Told : History → Option Runner → History → Type 0
Told h none h1 = Unit
Told h (some r) h1 =
    (sent h + r.query_count ≤ sent h1)
    × ((sent h1 ≤ sent h + (r.query_count + r.error_count))
        × (r.prepared ≡ true → errors h1 ≡ errors h + r.error_count))
