-- ===== src/Tools/Tombstone.antt =====
-- Rows that replace one another (sample_app/tombstone.py).
use scylla_k8s_example.Base.{ℕ, zero, suc, ◌/◌, ◌≡◌, ◌∙◌, subst, String, ◌<>◌, List, [], ◌∷◌, map}
use mathlib.Core.List.{append-nil}
use scylla_k8s_example.Base.Text.{show_nat}
use scylla_k8s_example.Base.Calendar.{show_time}
use scylla_k8s_example.Connection.{Files, show_hosts, Line}
use scylla_k8s_example.Connection
use scylla_k8s_example.Script.{
  Value, num, Script, pure, ◌>>=◌, ◌>>◌, print, now, run, prepare, for_each, close_cluster,
}
use scylla_k8s_example.Script.Session.{build_session, resolved}
use scylla_k8s_example.Script.Sends.{
  Statement, whole, Sends, flat, Sends-pure, Sends-bind, Sends-print, Sends-run, Sends-prepare,
  Sends-now, Sends-for_each, Sends-close_cluster,
}
use scylla_k8s_example.Script.Session.{Sends-build_session, Sends-resolved}
use scylla_k8s_example.Loader.Ranges.{ids_from}

pub record Options : Type 0 where
  pub connection : Connection.Options
  pub keyspace : String
  pub row_count : ℕ

abbrev pub create_keyspace : String → String
create_keyspace keyspace =
    "\n        CREATE KEYSPACE IF NOT EXISTS " <> keyspace
    <> "\n        WITH replication = {'class' : 'org.apache.cassandra.locator.NetworkTopologyStrategy', 'replication_factor' : 3}\n        AND tablets = {'enabled': "
    <> "true" <> " };\n    "

abbrev pub drop_table : String → String → String
drop_table keyspace table = "DROP TABLE if exists " <> keyspace <> "." <> table <> ";"

abbrev pub create_table : String → String → String → String
create_table keyspace table compression =
    "CREATE TABLE IF NOT EXISTS " <> keyspace <> "." <> table
    <> "\n        (a int, b int, c int,\n        PRIMARY KEY (a))\n        WITH compression = { "
    <> compression <> " }\n        ;"

abbrev pub insert_cql : String → String → String
insert_cql keyspace table = "INSERT INTO " <> keyspace <> "." <> table <> " (a,b,c) VALUES (?,?,?)"

abbrev pub print_time : String → Script Unit
print_time before = now >>= λ t. print (before <> show_time (t / 1000000))

abbrev pub row_values : ℕ → List Value
row_values i = num 1 ∷ num i ∷ num i ∷ []

-- `while i < row_count`, with the rounds that are left.
unfoldable pub insert_rows : ℕ → ℕ → String → Script ℕ
insert_rows zero i cql = pure i
insert_rows (suc n) i cql = do run cql (row_values i); insert_rows n (suc i) cql

unfoldable pub insert_data : String → ℕ → String → String → Script Unit
insert_data keyspace row_count table compression = do
  print ""
  print "## Creating schema"
  print_time ""
  run (create_keyspace keyspace) []
  run (drop_table keyspace table) []
  run (create_table keyspace table compression) []
  print "## Preparing CQL statement"
  prepare (insert_cql keyspace table)
  print ""
  i ← insert_rows row_count 0 (insert_cql keyspace table)
  print_time ("inserted records: " <> show_nat i <> " ")

-- The tables and their compression.
abbrev pub tables : List (String × String)
tables = ("myTable", "'sstable_compression': 'ZstdCompressor'") ∷ []

abbrev insert_table : String → ℕ → String × String → Script Unit
insert_table keyspace row_count (t, c) = do
  print ""
  print ("## Inserting data into " <> keyspace <> "." <> t)
  insert_data keyspace row_count t c

unfoldable pub fill_tables : Options → Files → Script Unit
fill_tables opts files = do
  (hosts, (port, username)) ← resolved opts.connection files
  print ("hosts: " <> show_hosts hosts)
  print ("row_count: " <> show_nat opts.row_count)
  build_session (record {
    hosts = hosts;
    port = port;
    username = username;
    password = opts.connection.password;
    dc = opts.connection.dc;
    local_only = opts.connection.local_only;
    rack = opts.connection.rack;
  })
  for_each tables (insert_table opts.keyspace opts.row_count)
  close_cluster
  print_time ""

-- The statements of one table: it is made anew and gets one row per number.
abbrev statements : String → ℕ → String × String → List Statement
statements keyspace row_count (t, c) =
    (create_keyspace keyspace, [])
    ∷ (drop_table keyspace t, [])
    ∷ (create_table keyspace t c, [])
    ∷ map (λ i. (insert_cql keyspace t, row_values i)) (ids_from 0 row_count)

-- What the script has to send, written out: the keyspace, the table anew, and the rows with the
-- numbers from 0 on, all with the key 1.
abbrev pub expected : String → ℕ → List Statement
expected ks row_count =
    (
      "\n        CREATE KEYSPACE IF NOT EXISTS " <> ks
          <> "\n        WITH replication = {'class' : 'org.apache.cassandra.locator.NetworkTopologyStrategy', 'replication_factor' : 3}\n        AND tablets = {'enabled': true };\n    ",
      [],
    )
    ∷ ("DROP TABLE if exists " <> ks <> ".myTable;", [])
    ∷ (
      "CREATE TABLE IF NOT EXISTS " <> ks
          <> ".myTable\n        (a int, b int, c int,\n        PRIMARY KEY (a))\n        WITH compression = { 'sstable_compression': 'ZstdCompressor' }\n        ;",
      [],
    )
    ∷ map
        (λ i.
          ("INSERT INTO " <> ks <> ".myTable (a,b,c) VALUES (?,?,?)", num 1 ∷ num i ∷ num i ∷ []))
        (ids_from 0 row_count)

Sends-insert_rows :
    (n i : ℕ) (cql : String)
    → Sends whole (insert_rows n i cql) (map (λ k. (cql, row_values k)) (ids_from i n))
unfolding insert_rows ids_from
Sends-insert_rows zero i cql = Sends-pure whole i
Sends-insert_rows (suc n) i cql =
    Sends-bind whole (Sends-run whole cql (row_values i)) (λ _. Sends-insert_rows n (suc i) cql)

Sends-print_time : (before : String) → Sends whole (print_time before) []
Sends-print_time before = Sends-bind whole (Sends-now whole) (λ t. Sends-print whole _)

Sends-insert_data :
    (keyspace : String) (row_count : ℕ) (table compression : String)
    → Sends whole
        (insert_data keyspace row_count table compression)
        (statements keyspace row_count (table, compression))
unfolding insert_data
Sends-insert_data keyspace row_count table compression =
    let line = Sends-print whole in
    let send = λ (cql : String). Sends-run whole cql [] in
    let rows = map (λ k. (insert_cql keyspace table, row_values k)) (ids_from 0 row_count) in
    Sends-bind whole (line _) λ _. Sends-bind whole (line _) λ _.
      Sends-bind whole (Sends-print_time _) λ _. Sends-bind whole (send _) λ _.
        Sends-bind whole (send _) λ _. Sends-bind whole (send _) λ _. Sends-bind whole (line _) λ _.
          Sends-bind whole (Sends-prepare whole _) λ _. Sends-bind whole (line _) λ _.
            subst (Sends whole _) (append-nil rows)
              (Sends-bind whole (Sends-insert_rows row_count 0 _) (λ i. Sends-print_time _))

Sends-insert_table :
    (keyspace : String) (row_count : ℕ) (t : String × String)
    → Sends whole (insert_table keyspace row_count t) (statements keyspace row_count t)
Sends-insert_table keyspace row_count (t, c) =
    Sends-bind whole (Sends-print whole _)
      λ _. Sends-bind whole (Sends-print whole _) λ _. Sends-insert_data keyspace row_count t c

expected-statements :
    (ks : String) (row_count : ℕ) → flat (statements ks row_count) tables ≡ expected ks row_count
expected-statements ks row_count = append-nil (expected ks row_count)

-- The script sends the keyspace and the table anew, with the options that `expected` writes out, and
-- then the rows 0 to one less than asked for, all with the key 1, in this order and nothing else,
-- until it is done or fails.
pub fill_tables-Sends :
    (opts : Options) (files : Files)
    → Sends whole (fill_tables opts files) (expected opts.keyspace opts.row_count)
unfolding fill_tables
fill_tables-Sends opts files = Sends-bind whole (Sends-resolved whole opts.connection files) λ p.
    Sends-bind whole (Sends-print whole _) λ _. Sends-bind whole (Sends-print whole _) λ _.
      Sends-bind whole (Sends-build_session whole _) λ _.
        subst (Sends whole _)
          (append-nil (flat (statements opts.keyspace opts.row_count) tables)
            ∙ expected-statements opts.keyspace opts.row_count)
          (Sends-bind whole
            (Sends-for_each whole tables (statements opts.keyspace opts.row_count)
              (λ t. Sends-insert_table _ _ t))
            λ _. Sends-bind whole (Sends-close_cluster whole) (λ _. Sends-print_time _))
