-- ===== src/Tools/SlowLoader.antt =====
-- The loader that writes one row at a time (sample_app/slow_loader.py).
pub mod Ids
use Prim.Native.String.{count}
use scylla_k8s_example.Base.{
  ℕ, zero, suc, ◌+◌, ◌/◌, ◌%◌, String, ◌<>◌, Bool, true, false, Option, none, some, List, [], ◌∷◌,
  ◌++◌,
}
use scylla_k8s_example.Base.{if◌then◌else◌, leb, nat_eq, ◌==◌, and_then}
use scylla_k8s_example.Base.Text.{show_nat}
use scylla_k8s_example.Base.Calendar.{show_time}
use scylla_k8s_example.Connection.{Files, show_hosts, auth_line}
use scylla_k8s_example.Connection
use scylla_k8s_example.Script.{
  Value, num, text, decimal, Script, pure, raise, exit, maybe, catch, ◌>>=◌, ◌>>◌, print, log,
  log_error, emit, logged, now,
}
use scylla_k8s_example.Script.{run, prepare, close_session, close_cluster}
use scylla_k8s_example.Script.Session.{Place, build_session, resolved}
use scylla_k8s_example.Loader.Row.{Draws, message_of}

pub record Options : Type 0 where
  pub connection : Connection.Options
  pub keyspace : String
  pub table : String
  pub row_count : ℕ
  pub drop : Bool
  pub cl : String
  pub buckets : ℕ

-- What the generators give for each row, and the sentences for each of its columns.
pub record Generators : Type 0 where
  pub draws : ℕ → Draws
  pub sentence : ℕ → ℕ → ℕ → String

abbrev compression : String
compression = "'sstable_compression': 'ZstdWithDictsCompressor'"

abbrev pub create_keyspace : String → String
create_keyspace keyspace =
    "\n        CREATE KEYSPACE IF NOT EXISTS " <> keyspace
    <> "\n        WITH replication = {'class' : 'NetworkTopologyStrategy', 'replication_factor' : 3}\n        AND tablets = {'enabled': "
    <> "true" <> " };\n    "

abbrev pub create_table : String → String → String
create_table keyspace table =
    "CREATE TABLE IF NOT EXISTS " <> keyspace <> "." <> table
    <> "\n        (bucket int, id int, ssn text, imei text, os text, phonenum text, balance float, pdate date, v1 text, v2 text, v3 text, v4 text, v5 text,\n        PRIMARY KEY (bucket, id))\n        WITH compression = { "
    <> compression <> " }\n        ;"

abbrev pub insert_cql : String → String → String
insert_cql keyspace table =
    "INSERT INTO " <> keyspace <> "." <> table
    <> " (bucket, id, ssn, imei, os, phonenum, balance, pdate, v1, v2, v3, v4, v5) VALUES (?,?,?,?,?,?,?,?, ?,?,?,?,?) USING TIMESTAMP ?"

-- `v[j]`, with the sentences of its column.
abbrev pub column : Generators → ℕ → ℕ → Option String
column g i j = message_of (record (g.draws i) { sentence = g.sentence i j })

-- `for j in range(j, j + n)`
unfoldable pub columns : Generators → ℕ → ℕ → ℕ → Option (List Value)
columns g i j zero = some []
columns g i j (suc n) =
    and_then (column g i j) λ m. and_then (columns g i (suc j) n) λ l. some (text m ∷ l)

-- The values bound for the row that is numbered after `i += 1`.
abbrev pub row_values : Draws → ℕ → ℕ → List Value → ℕ → List Value
row_values d id buckets v timestamp =
    num (id % buckets)
    ∷ num id
    ∷ text d.ssn
    ∷ text d.imei
    ∷ text d.os_name
    ∷ text d.phone
    ∷ decimal d.balance 2
    ∷ text d.date
    ∷ (v ++ (num timestamp ∷ []))

abbrev pub log_count : ℕ → String → Script Unit
log_count i after = now >>= λ t.
    log ("inserted records: " <> show_nat i <> ", " <> show_time (t / 1000000) <> after)

module _ (g : Generators) (buckets : ℕ) (cql : String) where
  -- `while i < row_count`, with the rounds that are left. A generator of empty sentences, on which
  -- the source would not end, raises.
  unfoldable pub insert_rows : ℕ → ℕ → Script ℕ
  insert_rows zero i = pure i
  insert_rows (suc n) i = do
    t ← now
    maybe (columns g i 0 5) (raise "out of sentences") (λ v. do
      (if i % 1000 == 0 then log_count i ":" else pure tt)
      run cql (row_values (g.draws i) (suc i) buckets v (t / 1000))
      insert_rows n (suc i))

unfoldable pub insert_data : Generators → String → ℕ → String → ℕ → Script Unit
insert_data g keyspace row_count table buckets = do
  log "## Creating schema"
  (now >>= λ t. log (show_time (t / 1000000)))
  run (create_keyspace keyspace) []
  run (create_table keyspace table) []
  log "## Preparing CQL statement"
  prepare (insert_cql keyspace table)
  i ← insert_rows g buckets (insert_cql keyspace table) row_count 0
  log_count i ""

-- `max(1, int(opts.buckets))`
abbrev pub num_buckets : Options → ℕ
num_buckets opts = if leb 1 opts.buckets then opts.buckets else 1

abbrev pub place_of : Options → List String → String → String → Place
place_of opts hosts port username = record {
  hosts = hosts;
  port = port;
  username = username;
  password = opts.connection.password;
  dc = opts.connection.dc;
  local_only = opts.connection.local_only;
  rack = opts.connection.rack;
}

-- The `try` of the main block.
unfoldable pub start : Options → List String → String → String → Script Unit
start opts hosts port username =
    catch
      (do
        build_session (place_of opts hosts port username)
        (if opts.drop
            then (do
              log ("Dropping keyspace " <> opts.keyspace <> " if exists")
              run ("DROP KEYSPACE if exists " <> opts.keyspace <> ";") [])
            else pure tt)
        log ("Connected to cluster: " <> show_hosts hosts)
        log ("Using keyspace: " <> opts.keyspace <> ", table: " <> opts.table)
        emit (logged (auth_line username (count opts.connection.password))))
      (λ e. do log_error ("Failed to connect to cluster: " <> e); exit 1)

-- The main block, without the line that tells the time it took.
unfoldable pub load_slowly : Generators → Options → Files → Script Unit
load_slowly g opts files = do
  (hosts, (port, username)) ← resolved opts.connection files
  log ("Using keyspace: " <> opts.keyspace <> ", table: " <> opts.table)
  log ("Local DC: " <> opts.connection.dc)
  log (
      "Row count to insert: "
      <> show_nat opts.row_count
      <> ", buckets: "
      <> show_nat (num_buckets opts))
  log ("Using consistency level: " <> opts.cl)
  start opts hosts port username
  log ("## Inserting data into " <> opts.keyspace <> "." <> opts.table)
  insert_data g opts.keyspace opts.row_count opts.table (num_buckets opts)
  close_session
  close_cluster
  log "Database connection closed"
  (now >>= λ t. print (show_time (t / 1000000)))
