-- ===== src/Loader/Main/Runs.antt =====
-- What a run of the loader leaves behind and how it ends (sample_app/loader.py, `main`).
use scylla_k8s_example.Base.{ℕ, suc, ◌+◌, ◌-◌, ◌≤◌, String, List, [], ◌∷◌, All, arith}
use scylla_k8s_example.Loader.Cover.{chunked_ids-total, jobs-start}
use scylla_k8s_example.Loader.Totals.{Speaks, batch_of-keys}
use scylla_k8s_example.Connection.{Files}
use scylla_k8s_example.Script.{Script, Outcome, ok, raised, exited, maybe}
use scylla_k8s_example.Script.Open.{
  Closes-execute_concurrent, Closes, Closes-pure, Closes-raise, Closes-exit, Closes-bind,
  Closes-attempt, closes_rules,
}
use scylla_k8s_example.Script.Session.{Place, Closes-with_place, Closes-resolved}
use scylla_k8s_example.Loader.Ranges.{Span, Job, range, jobs}
use scylla_k8s_example.Loader.Insert.{World, Tally, nothing}
use scylla_k8s_example.Loader.Main.{
  Options, create_schema, send_batch, send_batches, worker_run, run_jobs, get_result, add_up,
  insert_in_parallel, drop_table, check_options, main,
}

Closes-create_schema :
    (keyspace table tablets compression : String) (rf : ℕ)
    → Closes (create_schema keyspace table tablets compression rf)
unfolding create_schema
Closes-create_schema keyspace table tablets compression rf = search closes_rules depth 8

Closes-get_result : (r : Outcome Tally) → Closes (get_result r)
unfolding get_result
Closes-get_result (ok t) = Closes-pure t
Closes-get_result (raised m) = Closes-raise m
Closes-get_result (exited code) = Closes-exit code

Closes-check_options : (opts : Options) → Closes (check_options opts)
unfolding check_options
Closes-check_options opts = search closes_rules depth 8

Closes-add_up : (l : List (Job × Outcome Tally)) (t : Tally) → Closes (add_up l t)
unfolding add_up
Closes-add_up [] t = Closes-pure t
Closes-add_up ((j, r) ∷ l) t = search (closes_rules, Closes-get_result, Closes-add_up l) depth 8

module _ (w : World) (endless : Script Tally) (cpus : ℕ) (opts : Options) (place : Place) where
  Closes-drop_table : Closes (drop_table w endless cpus opts place)
  unfolding drop_table
  Closes-drop_table = search (closes_rules, Closes-with_place) depth 10

  module _ (h : 1 ≤ opts.buckets) (k : Speaks w) where
    Closes-send_batch :
        (worker_index : ℕ) (span : Span) (t : Tally)
        → Closes (send_batch w endless cpus opts place worker_index span t)
    unfolding send_batch maybe
    Closes-send_batch worker_index (s, e) t =
        let (batch, (made, _)) = batch_of-keys w opts.offset opts.buckets h k (range s (e + 1)) in
        rw made (search (closes_rules, Closes-execute_concurrent) depth 12)

    Closes-send_batches :
        (worker_index : ℕ) (l : List Span) (t : Tally)
        → Closes (send_batches w endless cpus opts place worker_index l t)
    unfolding send_batches
    Closes-send_batches worker_index [] t = Closes-pure t
    Closes-send_batches worker_index (span ∷ l) t =
        search (closes_rules, Closes-send_batch, Closes-send_batches worker_index l) depth 8

    module _ (b : 1 ≤ opts.batch_size) where
      Closes-worker_run :
          (j : Job) → 1 ≤ j.start_id → Closes (worker_run w endless cpus opts place j)
      unfolding worker_run maybe
      Closes-worker_run j first =
          let (l, (spans, _)) =
            chunked_ids-total (suc (j.end_id + 1 - j.start_id)) j.start_id j.end_id opts.batch_size
              first b (omega arith) in
          Closes-with_place place (rw spans (search (closes_rules, Closes-send_batches) depth 10))

      Closes-run_jobs :
          (l : List Job)
          → All (λ j. 1 ≤ j.start_id) l
          → Closes (run_jobs w endless cpus opts place l)
      unfolding run_jobs
      Closes-run_jobs [] firsts = Closes-pure []
      Closes-run_jobs (j ∷ l) (first, firsts) =
          Closes-bind (Closes-attempt (Closes-worker_run j first))
            (λ r. Closes-bind (Closes-run_jobs l firsts) (λ rest. Closes-pure _))

      Closes-insert_in_parallel : Closes (insert_in_parallel w endless cpus opts place)
      unfolding insert_in_parallel
      Closes-insert_in_parallel =
          let jobs_close =
            Closes-run_jobs (jobs opts.row_count opts.workers cpus)
              (jobs-start opts.row_count opts.workers cpus) in
          let adds = λ (results : List (Job × Outcome Tally)). Closes-add_up results nothing in
          Closes-bind (Closes-with_place place (Closes-create_schema _ _ _ _ _)) λ _.
            Closes-bind (search closes_rules depth 4)
              λ _. Closes-bind jobs_close λ results. search (closes_rules, adds) depth 8

-- If a batch has at least one row, there is at least one bucket, and each sentence that `faker` makes
-- has a character, then whatever the other options, the files and the database do, a run of the
-- loader closes as many sessions and as many clusters as it opens.
pub main-Closes :
    (w : World) (endless : Script Tally) (cpus : ℕ) (opts : Options) (files : Files)
    → 1 ≤ opts.batch_size
    → 1 ≤ opts.buckets
    → Speaks w
    → Closes (main w endless cpus opts files)
unfolding main
main-Closes w endless cpus opts files batch bucket speaks =
    let inserts =
      λ (place : Place). Closes-insert_in_parallel w endless cpus opts place bucket speaks batch in
    search (closes_rules, Closes-resolved, Closes-check_options, inserts, Closes-drop_table) depth
      20
