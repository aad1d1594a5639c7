-- ===== src/Loader/Main.antt =====
-- The run of the loader (sample_app/loader.py, `create_schema`, `_worker_insert_range`,
-- `insert_data_parallel`, `main`) with the sessions that it opens. The workers run one after the other.
pub mod Runs
pub mod Refusal
pub mod Sent
use scylla_k8s_example.Base.{
  ℕ, suc, ◌+◌, ◌-◌, String, ◌<>◌, Bool, true, false, Option, none, some, List, [], ◌∷◌, ◌++◌, map,
}
use scylla_k8s_example.Base.{if◌then◌else◌, ltb, nat_eq, ◌==◌, length}
use scylla_k8s_example.Base.Text.{show_nat}
use scylla_k8s_example.Connection.{Files}
use scylla_k8s_example.Connection
use scylla_k8s_example.Script.{
  Value, num, text, decimal, execute_concurrent, Script, Outcome, ok, raised, exited, pure, raise,
  exit, ◌>>=◌, ◌>>◌, catch, attempt, maybe, run, prepare,
}
use scylla_k8s_example.Script.{emit, logged, log, log_error, for_each}
use scylla_k8s_example.Script.Session.{Place, with_place, resolved}
use scylla_k8s_example.Loader.Ranges.{Span, range, chunked_ids, Job, jobs, processes, span_of}
use scylla_k8s_example.Loader.Row.{Row}
use scylla_k8s_example.Loader.Insert.{World, Tally, nothing, merge, failures, batch_of}

-- `parse_args`
pub record Options : Type 0 where
  pub connection : Connection.Options
  pub keyspace : String
  pub rf : ℕ
  pub table : String
  pub drop : Bool
  pub row_count : ℕ
  pub batch_size : ℕ
  pub cl : String
  pub workers : ℕ
  pub offset : ℕ
  pub buckets : ℕ
  pub tablets : Bool

abbrev compression : String
compression = "'sstable_compression': 'ZstdWithDictsCompressor'"

abbrev pub create_keyspace : String → String → ℕ → String
create_keyspace keyspace tablets rf =
    "\n        CREATE KEYSPACE IF NOT EXISTS "
    <> keyspace
    <> "\n        WITH replication = {'class' : 'NetworkTopologyStrategy', 'replication_factor' : "
    <> show_nat rf
    <> "}\n        AND tablets = {'enabled': "
    <> tablets
    <> " };\n    "

abbrev pub create_table : String → String → String → String
create_table keyspace table compression =
    "CREATE TABLE IF NOT EXISTS " <> keyspace <> "." <> table
    <> "\n        (bucket int, id int, ssn text, imei text, os text, phonenum text, balance float, pdate date, message text, PRIMARY KEY (bucket, id))\n        WITH compression = { "
    <> compression <> " }\n        ;"

abbrev pub insert_cql : String → String → String
insert_cql keyspace table =
    "INSERT INTO " <> keyspace <> "." <> table
    <> " (bucket, id, ssn, imei, os, phonenum, balance, pdate, message) VALUES (?,?,?,?,?,?,?,?, ?)"

unfoldable pub create_schema : String → String → String → String → ℕ → Script Unit
create_schema keyspace table tablets compression rf = do
  run (create_keyspace keyspace tablets rf) []
  run (create_table keyspace table compression) []

-- The values that are bound for a row.
abbrev pub bound : Row → List Value
bound r =
    num r.bucket
    ∷ num r.id
    ∷ text r.ssn
    ∷ text r.imei
    ∷ text r.os
    ∷ text r.phonenum
    ∷ decimal r.balance 2
    ∷ text r.pdate
    ∷ text r.message
    ∷ []

-- `j.get()`
unfoldable pub get_result : Outcome Tally → Script Tally
get_result (ok t) = pure t
get_result (raised m) = raise m
get_result (exited code) = exit code

unfoldable pub add_up : List (Job × Outcome Tally) → Tally → Script Tally
add_up [] t = pure t
add_up ((j, r) ∷ l) t = do
  u ← get_result r
  log (
      "Worker "
      <> show_nat j.worker_index
      <> " complete: rows="
      <> show_nat u.total
      <> ", failed="
      <> show_nat u.failed)
  add_up l (merge t u)

-- `endless` stands for a loop that does not end: nothing is assumed of it, so what is shown of a run
-- that may come to it holds whatever it does.
module _ (w : World) (endless : Script Tally) (cpus : ℕ) (opts : Options) (place : Place) where
  -- One batch of a worker, added to its tally. The source does not end on a generator that gives only
  -- empty sentences.
  unfoldable pub send_batch : ℕ → Span → Tally → Script Tally
  send_batch worker_index (s, e) t =
      maybe (batch_of w opts.offset opts.buckets (range s (e + 1))) endless λ batch. do
        results ← execute_concurrent (insert_cql opts.keyspace opts.table) (map bound batch)
        (if worker_index == 0
            then log (
                "Worker 0 inserted "
                <> show_nat (length batch)
                <> " rows (failed="
                <> show_nat (failures results)
                <> "), id ["
                <> show_nat s
                <> "-"
                <> show_nat e
                <> "]")
            else pure tt)
        pure (record {
          total = t.total + length batch;
          failed = t.failed + failures results;
          sent = t.sent ++ batch;
        })

  unfoldable pub send_batches : ℕ → List Span → Tally → Script Tally
  send_batches worker_index [] t = pure t
  send_batches worker_index (span ∷ l) t = do
    u ← send_batch worker_index span t
    send_batches worker_index l u

  -- One worker, in a session of its own. The source does not end with a batch size of zero.
  unfoldable pub worker_run : Job → Script Tally
  worker_run j = with_place place (do
    prepare (insert_cql opts.keyspace opts.table)
    maybe (chunked_ids (suc (j.end_id + 1 - j.start_id)) j.start_id j.end_id opts.batch_size)
        endless (λ l. send_batches j.worker_index l nothing))

  -- The pool: each job ends before the first result is asked for.
  unfoldable pub run_jobs : List Job → Script (List (Job × Outcome Tally))
  run_jobs [] = pure []
  run_jobs (j ∷ l) = do r ← attempt (worker_run j); rest ← run_jobs l; pure ((j, r) ∷ rest)

  unfoldable pub insert_in_parallel : Script Unit
  insert_in_parallel = do
    with_place place (
        create_schema opts.keyspace opts.table (if opts.tablets then "true" else "false")
          compression opts.rf)
    let procs = processes opts.workers cpus
    log (
        "Starting "
        <> show_nat procs
        <> " workers, total rows="
        <> show_nat opts.row_count
        <> ", buckets="
        <> show_nat opts.buckets
        <> ", per-worker target≈"
        <> show_nat (span_of opts.row_count procs)
        <> ", batch_size="
        <> show_nat opts.batch_size)
    results ← run_jobs (jobs opts.row_count opts.workers cpus)
    t ← add_up results nothing
    log ("All workers done: inserted=" <> show_nat t.total <> ", failures=" <> show_nat t.failed)

  unfoldable pub drop_table : Script Unit
  drop_table =
      if opts.drop
      then with_place place (do
        log ("Dropping table " <> opts.keyspace <> "." <> opts.table <> " if exists.")
        run ("DROP TABLE IF EXISTS " <> opts.keyspace <> "." <> opts.table <> ";") [])
      else pure tt

abbrev pub place_of : Options → List String → String → String → Place
place_of opts hosts port username = record {
  hosts = hosts;
  port = port;
  username = username;
  password = opts.connection.password;
  dc = opts.connection.dc;
  local_only = opts.connection.local_only;
  rack = opts.connection.rack;
}

-- The tests of the options.
unfoldable pub check_options : Options → Script Unit
check_options opts =
    if ltb opts.buckets 1
    then (do log_error "--buckets must be >= 1"; exit 1)
    else if ltb opts.rf 1
    then (do log_error "--rf must be >= 1"; exit 1)
    else pure tt

-- `main`, whose last line leaves out the time.
unfoldable pub main : World → Script Tally → ℕ → Options → Files → Script Unit
main w endless cpus opts files = do
  (hosts, (port, username)) ← resolved opts.connection files
  log (
      "Using keyspace: "
      <> opts.keyspace
      <> ", table: "
      <> opts.table
      <> ", rf: "
      <> show_nat opts.rf)
  log ("Local DC: " <> opts.connection.dc)
  log ("Using consistency level: " <> opts.cl)
  log (
      "Row count to insert: "
      <> show_nat opts.row_count
      <> ", partition buckets: "
      <> show_nat opts.buckets
      <> ", tablets: "
      <> (if opts.tablets then "true" else "false"))
  check_options opts
  log ("Workers: " <> show_nat (if ltb 0 opts.workers then opts.workers else cpus))
  (if opts.connection.local_only then log "Local-only mode forced: True" else pure tt)
  catch
      (do
        drop_table w endless cpus opts (place_of opts hosts port username)
        insert_in_parallel w endless cpus opts (place_of opts hosts port username)
        log "Total insertion time")
      (λ e. do log_error ("Error in main execution: " <> e); exit 1)
