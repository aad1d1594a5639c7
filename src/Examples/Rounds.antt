-- ===== src/Examples/Rounds.antt =====
-- The theorems on the run of the query runner, at small inputs.
use scylla_k8s_example.Base.{ℕ, ◌+◌, ◌*◌, ◌≡◌, none, [], ◌∷◌, ◌++◌, arith}
use scylla_k8s_example.Script.{World, rows, Event, slept, History}
use scylla_k8s_example.Script.Clock.{Ticks}
use scylla_k8s_example.Query.Main.{Options, Outside, run_for_duration}
use scylla_k8s_example.Query.Main.Ends.{Enough, run_for_duration-Enough}
use scylla_k8s_example.Query.Main.Tally.{Holds, Told}
use scylla_k8s_example.Query.Main.Tally.Rounds.{run_for_duration-Told}
use scylla_k8s_example.Base.{true}
use scylla_k8s_example.Query.{Runner}
use scylla_k8s_example.Query
use scylla_k8s_example.Query.Main.{look_up, execute_query}
use scylla_k8s_example.Query.Main.Refines.{met, execute_query-met}
use scylla_k8s_example.Script.{ok}
use scylla_k8s_example.Examples.Tools

-- The microseconds that a run has slept.
unfoldable elapsed : History → ℕ
elapsed [] = 0
elapsed (slept n ∷ h) = n * 1000 + elapsed h
elapsed (ev ∷ h) = elapsed h

elapsed-++ : (h : History) (ev : Event) → elapsed (h ++ (ev ∷ [])) ≡ elapsed h + elapsed (ev ∷ [])
unfolding elapsed
elapsed-++ [] ev = omega arith
elapsed-++ (slept n ∷ h) ev = omega (arith, elapsed-++ h ev)
elapsed-++ (ev1 ∷ h) ev = elapsed-++ h ev

-- A database without rows, with a clock that only sleeping moves.
abbrev quiet : World
quiet = record {
  refuses = λ h t. none;
  answer = λ h s values. rows [];
  unprepared = λ h s. none;
  no_keyspace = λ h ks. none;
  shutdown_fails = λ h. none;
  now = elapsed;
}

quiet-Ticks : Ticks quiet
unfolding elapsed
quiet-Ticks = record {
  onward = λ h ev. omega (arith, elapsed-++ h ev);
  sleeps = λ h n. omega (arith, elapsed-++ h (slept n));
}

abbrev opts : Options
opts = record {
  connection = Tools.opts;
  keyspace = "ks";
  table = "t";
  row_count = 5;
  offset = 100;
  consistency_level = "ONE";
  minutes = 2;
  interval = 250;
  buckets = 4;
}

abbrev outside : Outside
outside = record {
  drawn = λ round. 3;
  float_text = λ n digits. "10.5";
  columns = "id" ∷ "ssn" ∷ "balance" ∷ [];
}

run_for_duration-Enough_example : Enough (run_for_duration opts outside 2 quiet []).0
run_for_duration-Enough_example =
    run_for_duration-Enough quiet-Ticks opts outside (omega arith) 2 []

run_for_duration-Told_example : Holds (Told []) (run_for_duration opts outside 2 quiet [])
run_for_duration-Told_example = run_for_duration-Told opts outside quiet 2 []

abbrev runner : Runner
runner = record { prepared = true; query_count = 7; error_count = 1 }

execute_query-met_example :
    (execute_query opts outside 3 runner quiet []).0
    ≡ ok (Query.execute_query (met opts outside 3 (look_up opts outside 3 quiet []).0) runner)
execute_query-met_example = execute_query-met opts outside quiet 3 runner []
