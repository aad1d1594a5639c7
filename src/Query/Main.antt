-- ===== src/Query/Main.antt =====
-- The run of the query runner (sample_app/query.py, `TableQueryRunner`, `main`). Lines of time and of
-- rates leave out the numbers, and the arguments of the loop are not negative.
pub mod Ends
pub mod Tally
pub mod Refines
use scylla_k8s_example.Base.{
  ℕ, zero, suc, ◌+◌, ◌*◌, ◌%◌, String, ◌<>◌, Bool, true, false, not, ◌&&◌, Option, none, some, List,
  [], ◌∷◌,
}
use Prim.Native.String.{count}
use scylla_k8s_example.Base.{and_then, string_eq, if◌then◌else◌, ltb, leb, nat_eq, ◌==◌, length}
use scylla_k8s_example.Base.Text.{show_nat, ℤ, pos, negsuc}
use scylla_k8s_example.Connection.{Files, show_hosts, auth_line}
use scylla_k8s_example.Connection
use scylla_k8s_example.Script.{
  Value, null, num, text, decimal, instant, Outcome, ok, raised, exited, Script, pure, raise, exit,
  ◌>>=◌, ◌>>◌, catch, finally, attempt, maybe, emit, logged, log, log_warning, log_error,
  sleep_millis, now, prepare, execute, use_keyspace, close_cluster,
}
use scylla_k8s_example.Script.Session.{Place, build_session, resolved}
use scylla_k8s_example.Query.{Runner, looked_up, statistics}

-- The options. The interval is in milliseconds.
pub record Options : Type 0 where
  pub connection : Connection.Options
  pub keyspace : String
  pub table : String
  pub row_count : ℕ
  pub offset : ℕ
  pub consistency_level : String
  pub minutes : ℕ
  pub interval : ℕ
  pub buckets : ℕ

-- The number that `random.randint(1, row_count)` draws in a round, the text of a `float`, and the
-- names of the columns of the rows that the database answers with.
pub record Outside : Type 0 where
  pub drawn : ℕ → ℕ
  pub float_text : ℕ → ℕ → String
  pub columns : List String

abbrev pub select_cql : Options → String
select_cql opts =
    "SELECT * FROM " <> opts.keyspace <> "." <> opts.table <> " WHERE bucket = ? AND id = ?"

-- Whether the query is prepared.
unfoldable pub prepare_queries : Options → Script Bool
prepare_queries opts =
    catch (do prepare (select_cql opts); log ("Prepared query: " <> select_cql opts); pure true)
      (λ e. do log_warning ("Failed to prepare query: " <> e); pure false)

abbrev pub value_text : Outside → Value → String
value_text o null = "None"
value_text o (num n) = show_nat n
value_text o (text s) = s
value_text o (decimal n digits) = o.float_text n digits
value_text o (instant t) = "?"

-- `row.name`, if the row has such a column.
abbrev pub column_of : String → List String → List Value → Option Value
column_of name (c ∷ names) (v ∷ row) = if c == name then some v else column_of name names row
column_of name names row = none

abbrev pub sample_line : Outside → List Value → Option String
sample_line o row = and_then (column_of "id" o.columns row) λ id.
    and_then (column_of "ssn" o.columns row) λ ssn.
      and_then (column_of "balance" o.columns row) λ balance. some (
        "Sample: id="
        <> value_text o id
        <> ", ssn="
        <> value_text o ssn
        <> ", balance="
        <> value_text o balance)

module _ (opts : Options) (o : Outside) where
  -- The key that is looked up in a round.
  abbrev pub key_in : ℕ → ℕ × ℕ
  key_in round = looked_up opts.offset opts.buckets (o.drawn round)

  unfoldable pub look_up : ℕ → Script (List (List Value))
  look_up round =
      let (b, rid) = key_in round in
      if ltb opts.row_count 1 then raise "empty range for randrange()" else (do
        log ("Querying bucket=" <> show_nat b <> " id=" <> show_nat rid)
        execute (select_cql opts) (num b ∷ num rid ∷ []))

  -- The `except` of `execute_query`.
  unfoldable pub fail : Runner → String → Script (Bool × Runner)
  fail r e = do
    log_error ("Query #" <> show_nat (r.query_count + 1) <> " failed: " <> e)
    pure (false, record r { error_count = r.error_count + 1 })

  unfoldable pub show_sample : List (List Value) → Runner → Script (Bool × Runner)
  show_sample [] r = do log "No rows returned from main table"; pure (true, r)
  show_sample (row ∷ rows) r =
      maybe (sample_line o row) (fail r "Row has no such attribute")
        (λ line. do log line; pure (true, r))

  -- What follows the look-up. A query is counted once it is answered.
  unfoldable pub report : ℕ → Runner → Outcome (List (List Value)) → Script (Bool × Runner)
  report round r (ok rows) =
      let (b, rid) = key_in round in
      let counted = record r { query_count = r.query_count + 1 } in
      do
        log (
            "Query #"
            <> show_nat counted.query_count
            <> " bucket="
            <> show_nat b
            <> " id="
            <> show_nat rid
            <> " -> "
            <> show_nat (length rows)
            <> " rows")
        show_sample rows counted
  report round r (raised e) = fail r e
  report round r (exited code) = exit code

  unfoldable pub execute_query : ℕ → Runner → Script (Bool × Runner)
  execute_query round r =
      if r.prepared
      then (attempt (look_up round) >>= report round r)
      else (do log_error "No prepared query available"; pure (false, r))

  unfoldable pub log_progress : Runner → Script Unit
  log_progress r =
      if r.query_count % 50 == 0 && not (r.query_count == 0)
      then log (
          "Progress: "
          <> show_nat r.query_count
          <> " queries, "
          <> show_nat r.error_count
          <> " errors")
      else pure tt

  -- `while datetime.now() < end_time`, with the rounds that are left; `none` says that they were not
  -- enough.
  unfoldable pub run_rounds : ℕ → ℕ → ℕ → Runner → Script (Option Runner)
  run_rounds zero round end_time r = pure none
  run_rounds (suc n) round end_time r = now >>= λ t.
      if leb end_time t
      then pure (some r)
      else (execute_query round r >>= λ (result, r1). log_progress r1 >>= λ _.
          sleep_millis opts.interval >>= λ _. run_rounds n (suc round) end_time r1)

  abbrev pub show_int : ℤ → String
  show_int (pos n) = show_nat n
  show_int (negsuc n) = "-" <> show_nat (n + 1)

  unfoldable pub log_statistics : Runner → Script Unit
  log_statistics r =
      let (queries, (successful, errors)) = statistics r in
      do
        log "=== Final Statistics ==="
        log "Total runtime"
        log ("Total queries: " <> show_nat queries)
        log ("Successful queries: " <> show_int successful)
        log ("Failed queries: " <> show_nat errors)
        log "Success rate"
        log "Average queries per second"

  -- Each round sleeps for the interval, so with an interval of at least a millisecond a round for
  -- each and one more are enough.
  unfoldable pub run_for_duration : ℕ → Script (Option Runner)
  run_for_duration minutes = do
    log ("Starting query runner for " <> show_nat minutes <> " minutes...")
    start ← now
    prepared ← prepare_queries opts
    result ←
        run_rounds (suc (minutes * 60000)) 0 (start + minutes * 60000000)
          (record { prepared = prepared; query_count = 0; error_count = 0 })
    maybe result (pure none) (λ r. do log_statistics r; pure (some r))

  unfoldable pub close : Script Unit
  close = do close_cluster; log "Database connection closed"

  -- `TableQueryRunner.__init__`
  unfoldable pub connect : Place → Script Unit
  connect place =
      catch
        (do
          build_session place
          use_keyspace opts.keyspace
          log ("Connected to cluster: " <> show_hosts place.hosts)
          log ("Using keyspace: " <> opts.keyspace <> ", table: " <> opts.table)
          emit (logged (auth_line place.username (count place.password))))
        (λ e. do log_error ("Failed to connect to cluster: " <> e); exit 1)

  unfoldable pub main : Place → Script (Option Runner)
  main place = if ltb opts.buckets 1 then (do log_error "--buckets must be >= 1"; exit 1) else (do
    connect place
    finally
        (catch (run_for_duration opts.minutes)
          (λ e. do log_error ("Unexpected error: " <> e); pure none))
        close)

abbrev pub place_of : Options → List String → String → String → Place
place_of opts hosts port username = record {
  hosts = hosts;
  port = port;
  username = username;
  password = opts.connection.password;
  dc = opts.connection.dc;
  local_only = opts.connection.local_only;
  rack = opts.connection.rack;
}

-- The whole script.
unfoldable pub query_table : Options → Outside → Files → Script (Option Runner)
query_table opts o files = do
  (hosts, (port, username)) ← resolved opts.connection files
  log ("Using keyspace: " <> opts.keyspace <> ", table: " <> opts.table)
  log ("Local DC: " <> opts.connection.dc)
  log ("Using consistency level: " <> opts.consistency_level)
  log (
      "Row count to query: "
      <> show_nat opts.row_count
      <> ", id offset: "
      <> show_nat opts.offset
      <> ", buckets: "
      <> show_nat opts.buckets)
  main opts o (place_of opts hosts port username)
