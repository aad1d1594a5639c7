-- ===== src/Tools/Vnodes.antt =====
-- The demonstration keyspace of vnodes (sample_app/create_vnodes_ks_index_mv_counters.py). A statement
-- is written with its constants put in, and the temperatures are exact decimals.
pub mod Retry
pub mod Writes
use scylla_k8s_example.Base.{
  ℕ, zero, suc, ◌+◌, ◌-◌, ◌*◌, ◌/◌, ◌%◌, String, ◌<>◌, Bool, true, false, Option, none, some, List,
  [], ◌∷◌, ◌++◌,
}
use scylla_k8s_example.Base.{if◌then◌else◌, nat_eq, ◌==◌}
use scylla_k8s_example.Base.Text.{show_nat, pad_right}
use scylla_k8s_example.Base.Calendar.{show_time}
use scylla_k8s_example.Script.{
  Value, null, num, text, decimal, instant, Target, plain, Script, pure, raise, maybe, catch, ◌>>=◌,
  ◌>>◌, print, sleep, now,
}
use scylla_k8s_example.Script.{connect_to, execute, run, prepare, close_cluster, for_each}
use scylla_k8s_example.Tools.Format.{show_decimal, show_instant, shown, null_error}

-- The `except` of `retry`, before the other rounds.
abbrev pub after_failure : {A : Type 0} → ℕ → ℕ → ℕ → Script (Option A) → String → Script (Option A)
after_failure attempt attempts delay others e = if attempt == attempts then raise e else (do
  print (
      "  attempt "
      <> show_nat attempt
      <> "/"
      <> show_nat attempts
      <> " failed ("
      <> e
      <> "); retrying in "
      <> show_nat delay
      <> "s")
  sleep delay
  others)

-- `retry`, with the rounds that are left. Without a round it returns `None`.
unfoldable pub retry_from : {A : Type 0} → ℕ → ℕ → ℕ → ℕ → Script A → Script (Option A)
retry_from zero attempt attempts delay fn = pure none
retry_from (suc n) attempt attempts delay fn =
    let others = retry_from n (suc attempt) attempts delay fn in
    catch (fn >>= λ a. pure (some a)) (after_failure attempt attempts delay others)

abbrev pub retry : {A : Type 0} → ℕ → ℕ → Script A → Script (Option A)
retry attempts delay fn = retry_from attempts 1 attempts delay fn

abbrev pub drop_keyspace : String
drop_keyspace = "DROP KEYSPACE IF EXISTS vnodes_ks"

abbrev pub create_keyspace : String
create_keyspace =
    "\n        CREATE KEYSPACE IF NOT EXISTS vnodes_ks\n        WITH replication = {'class': 'NetworkTopologyStrategy', 'replication_factor': 3}\n        AND tablets = {'enabled': false}\n    "

abbrev pub create_table : String
create_table =
    "\n        CREATE TABLE IF NOT EXISTS vnodes_ks.sensor_readings (\n            device_id text,\n            reading_time timestamp,\n            region text,\n            temperature double,\n            PRIMARY KEY (device_id, reading_time)\n        ) WITH CLUSTERING ORDER BY (reading_time DESC)\n    "

abbrev pub create_index : String
create_index =
    "CREATE INDEX IF NOT EXISTS sensor_readings_region_idx ON vnodes_ks.sensor_readings (region)"

abbrev pub create_view : String
create_view =
    "\n        CREATE MATERIALIZED VIEW IF NOT EXISTS vnodes_ks.sensor_readings_by_region AS\n            SELECT region, device_id, reading_time, temperature\n            FROM vnodes_ks.sensor_readings\n            WHERE region IS NOT NULL\n              AND device_id IS NOT NULL\n              AND reading_time IS NOT NULL\n            PRIMARY KEY ((region), device_id, reading_time)\n            WITH CLUSTERING ORDER BY (device_id ASC, reading_time DESC)\n    "

abbrev pub create_counters : String
create_counters =
    "\n            CREATE TABLE IF NOT EXISTS vnodes_ks.device_event_counts (\n                device_id text PRIMARY KEY,\n                readings counter,\n                errors counter\n            )\n        "

abbrev pub insert_cql : String
insert_cql =
    "INSERT INTO vnodes_ks.sensor_readings (device_id, reading_time, region, temperature) VALUES (?, ?, ?, ?)"

abbrev pub bump_cql : String
bump_cql = "UPDATE vnodes_ks.device_event_counts SET readings = readings + ? WHERE device_id = ?"

abbrev pub error_cql : String
error_cql = "UPDATE vnodes_ks.device_event_counts SET errors = errors + 1 WHERE device_id = %s"

abbrev pub latest_cql : String
latest_cql =
    "SELECT device_id, reading_time, region, temperature FROM vnodes_ks.sensor_readings WHERE device_id = %s LIMIT 1"

abbrev pub by_index_cql : String
by_index_cql =
    "SELECT device_id, reading_time, temperature FROM vnodes_ks.sensor_readings WHERE region = %s"

abbrev pub by_view_cql : String
by_view_cql =
    "SELECT device_id, reading_time, temperature FROM vnodes_ks.sensor_readings_by_region WHERE region = %s"

abbrev pub counters_cql : String
counters_cql = "SELECT device_id, readings, errors FROM vnodes_ks.device_event_counts"

-- A device, its region, and its temperature in tenths of a degree.
pub record Sample : Type 0 where
  pub device_id : String
  pub region : String
  pub temperature : ℕ

abbrev pub sample_data : List Sample
sample_data =
    record { device_id = "dev-001"; region = "us-east"; temperature = 215 }
    ∷ record { device_id = "dev-002"; region = "us-east"; temperature = 231 }
    ∷ record { device_id = "dev-003"; region = "us-west"; temperature = 198 }
    ∷ record { device_id = "dev-004"; region = "eu-central"; temperature = 254 }
    ∷ record { device_id = "dev-005"; region = "eu-central"; temperature = 240 }
    ∷ []

abbrev pub readings_per_device : ℕ
readings_per_device = 3

-- The values of the reading that is `i` minutes old.
abbrev pub reading : ℕ → Sample → ℕ → List Value
reading t d i =
    text d.device_id
    ∷ instant (t - i * 60000000)
    ∷ text d.region
    ∷ decimal (d.temperature + i * 3) 1
    ∷ []

-- `for i in range(READINGS_PER_DEVICE)`
abbrev pub ages : List ℕ
ages = 0 ∷ 1 ∷ 2 ∷ []

unfoldable pub write_device : Bool → ℕ → Sample → Script Unit
write_device counters t d = do
  for_each ages (λ i. run insert_cql (reading t d i))
  (if counters then run bump_cql (num readings_per_device ∷ text d.device_id ∷ []) else pure tt)

-- The line for the first row, `f"  {row.device_id:10s} {row.region:12s} ..."`, if it has the values.
abbrev pub latest_line : List (List Value) → Option String
latest_line ((text id ∷ instant t ∷ text region ∷ decimal n d ∷ row) ∷ rows) = some (
    "  "
    <> pad_right 10 id
    <> " "
    <> pad_right 12 region
    <> " "
    <> show_decimal 5 n d
    <> " "
    <> show_instant t)
latest_line rows = none

abbrev pub reading_line : List Value → Option String
reading_line (text id ∷ instant t ∷ decimal n d ∷ row) =
    some ("  " <> pad_right 10 id <> " " <> show_decimal 5 n d <> " " <> show_instant t)
reading_line row = none

-- `row.errors or 0`
abbrev pub or_zero : Value → String
or_zero (num n) = show_nat n
or_zero v = "0"

abbrev pub counter_line : List Value → Option String
counter_line (text id ∷ readings ∷ errors ∷ row) =
    some ("  " <> pad_right 10 id <> " readings=" <> shown readings <> " errors=" <> or_zero errors)
counter_line row = none

-- A line, or the exception of a format string.
unfoldable pub print_line : Option String → Script Unit
print_line line = maybe line (raise null_error) (λ l. print l)

-- The rows of a region, read again until the read returns.
unfoldable pub show_region : String → String → Script Unit
show_region cql region = do
  rows ← retry 12 5 (execute cql (text region ∷ []))
  maybe rows (raise "'NoneType' object is not iterable")
      (λ l. for_each l (λ row. print_line (reading_line row)))

unfoldable pub create_schema : Bool → Script Unit
create_schema counters = do
  print "Dropping keyspace vnodes_ks (tablets disabled)"
  run drop_keyspace []
  print "Creating keyspace vnodes_ks (tablets disabled)"
  run create_keyspace []
  print "Creating table vnodes_ks.sensor_readings"
  run create_table []
  print "Creating index sensor_readings_region_idx on sensor_readings(region)"
  run create_index []
  print "Creating materialized view vnodes_ks.sensor_readings_by_region"
  run create_view []
  (if counters
      then (do print "Creating counter table vnodes_ks.device_event_counts"; run create_counters [])
      else pure tt)

unfoldable pub write_readings : Bool → Script Unit
write_readings counters = do
  prepare insert_cql
  (if counters then prepare bump_cql else pure tt)
  t ← now
  print "Writing 3 readings for each of 5 devices"
  for_each sample_data (write_device counters t)
  (if counters then run error_cql (text "dev-001" ∷ []) else pure tt)

unfoldable pub read_back : Bool → Script Unit
read_back counters = do
  print "\nBase table — latest reading per device (partition key lookup):"
  for_each sample_data
      (λ d. execute latest_cql (text d.device_id ∷ []) >>= λ rows. print_line (latest_line rows))
  print "\nSecondary index — rows in region 'us-east':"
  show_region by_index_cql "us-east"
  print "\nMaterialized view — rows in region 'us-east' from sensor_readings_by_region:"
  show_region by_view_cql "us-east"
  (if counters
      then (do
        print "\nCounter table device_event_counts:"
        execute counters_cql [] >>= λ rows. for_each rows (λ row. print_line (counter_line row)))
      else print (
          "\nNo counter table (pass -c to add device_event_counts); "
          <> "vnodes_ks can be migrated to tablets as is"))

unfoldable pub main : Bool → Script Unit
main counters = do
  connect_to (plain ("scylla-client" ∷ []) "cassandra" "cassandra")
  create_schema counters
  write_readings counters
  read_back counters
  close_cluster
