-- ===== src/Tools/Twcs/Seed.antt =====
-- The schema and the readings of the demonstration (sample_app/twcs/device_read_data_demo.py,
-- `create_keyspace_cql` to `insert_cql`, `setup_schema`, `seed_data`). Random choices, values and
-- identifiers are given. The readings do not start before 1970.
pub mod Seeded
use scylla_k8s_example.Base.{
  ℕ, zero, suc, ◌+◌, ◌-◌, ◌*◌, ◌/◌, ◌%◌, String, ◌<>◌, Option, none, some, List, [], ◌∷◌, map,
}
use scylla_k8s_example.Base.Text.{show_nat}
use scylla_k8s_example.Base.Calendar.{show_date, show_minute}
use scylla_k8s_example.Loader.Ranges.{ids_from}
use scylla_k8s_example.Script.{
  Value, null, text, instant, Script, pure, raise, maybe, ◌>>=◌, ◌>>◌, print, sleep_millis, now,
}
use scylla_k8s_example.Script.{use_keyspace, run, prepare}
use scylla_k8s_example.Tools.Format.{show_iso}
use scylla_k8s_example.Tools.Twcs.Window.{
  window_minutes, micros, window_bucket, ddate_key, window_start, reading_time,
}

abbrev pub create_keyspace_cql : String → String
create_keyspace_cql keyspace =
    "\nCREATE KEYSPACE IF NOT EXISTS " <> keyspace
    <> "\nWITH replication = {'class' : 'NetworkTopologyStrategy', 'replication_factor': 3};\n"

abbrev pub drop_table_cql : String → String → String
drop_table_cql keyspace table = "DROP TABLE IF EXISTS " <> keyspace <> "." <> table <> ";"

abbrev pub create_table_cql : String → String → String
create_table_cql keyspace table =
    "\nCREATE TABLE IF NOT EXISTS " <> keyspace <> "." <> table
    <> " (\n    fkdrwid  uuid,\n    ddate    text,\n    odate    timestamp,\n    bval     text,\n    val      text,\n    PRIMARY KEY ((fkdrwid, ddate), odate)\n) WITH CLUSTERING ORDER BY (odate DESC)\n    AND bloom_filter_fp_chance = 0.1\n    AND caching = {'keys': 'ALL', 'rows_per_partition': '100'}\n    AND comment = 'Demo: x-min windows mirror prod 18-day TWCS behaviour'\n    AND compaction = {\n        'class'                 : 'TimeWindowCompactionStrategy',\n        'compaction_window_size': '10',\n        'compaction_window_unit': 'MINUTES',\n        'min_threshold'         : '4',\n        'max_threshold'         : '32'\n    }\n    AND compression = {'sstable_compression': 'LZ4Compressor'}\n    AND crc_check_chance = 1\n    AND default_time_to_live = 43200\n    AND gc_grace_seconds     = 60\n    AND max_index_interval   = 2048\n    AND memtable_flush_period_in_ms = 0\n    AND min_index_interval   = 128\n    AND speculative_retry    = '99.0PERCENTILE'\n    AND tombstone_gc         = {'mode': 'timeout', 'propagation_delay_in_seconds': '60'};\n"

abbrev pub insert_cql : String → String → String
insert_cql keyspace table =
    "\nINSERT INTO " <> keyspace <> "." <> table
    <> " (fkdrwid, ddate, odate, bval, val)\nVALUES (?, ?, ?, ?, ?)\nUSING TTL 43200;\n"

-- `KEYSPACE`, `TABLE`, `NUM_DEVICES`, `NUM_FLUSHES` and `READINGS_PER_FLUSH`
pub record Plan : Type 0 where
  pub keyspace : String
  pub table : String
  pub num_devices : ℕ
  pub num_flushes : ℕ
  pub readings_per_flush : ℕ

-- What `uuid` and `random` give: the identifier of a device, and for a reading of a window the draw
-- of its device, `random_bval` and `random_val`.
pub record Draws : Type 0 where
  pub device_id : ℕ → String
  pub pick : ℕ → ℕ → ℕ
  pub bval : ℕ → ℕ → Option String
  pub val : ℕ → ℕ → String

abbrev pub setup_schema : Plan → Script Unit
setup_schema p = do
  print ("[schema] Creating keyspace '" <> p.keyspace <> "' if needed...")
  run (create_keyspace_cql p.keyspace) []
  use_keyspace p.keyspace
  print ("[schema] Creating table '" <> p.table <> "' if needed...")
  run (drop_table_cql p.keyspace p.table) []
  run (create_table_cql p.keyspace p.table) []
  print "[schema] Done."

-- `random.choice(devices)`, where the draw is the index.
unfoldable pub choice : List String → ℕ → Option String
choice [] n = none
choice (d ∷ []) n = some d
choice (d ∷ e ∷ l) zero = some d
choice (d ∷ e ∷ l) (suc n) = choice (e ∷ l) n

abbrev pub text_or_null : Option String → Value
text_or_null none = null
text_or_null (some s) = text s

-- The values bound for a reading.
abbrev pub reading : Draws → ℕ → ℕ → ℕ → ℕ → String → List Value
reading d start rows flush_idx i device =
    let ts = reading_time start rows flush_idx i in
    text device
    ∷ text (ddate_key ts)
    ∷ instant ts
    ∷ text_or_null (d.bval flush_idx i)
    ∷ text (d.val flush_idx i)
    ∷ []

module _ (p : Plan) (d : Draws) (devices : List String) (start : ℕ) where
  -- `for i in range(READINGS_PER_FLUSH)`, with the rounds that are left.
  unfoldable pub write_readings : ℕ → ℕ → ℕ → ℕ → Script ℕ
  write_readings flush_idx zero i total = pure total
  write_readings flush_idx (suc n) i total =
      maybe (choice devices (d.pick flush_idx i)) (raise "Cannot choose from an empty sequence")
        λ device.
          run (insert_cql p.keyspace p.table)
            (reading d start p.readings_per_flush flush_idx i device)
          >> sleep_millis 20
          >> write_readings flush_idx n (suc i) (total + 1)

  abbrev pub show_window : ℕ → Script Unit
  show_window flush_idx =
      let bucket = window_bucket (window_start start flush_idx) window_minutes in
      print (
        "  Window "
        <> show_nat (flush_idx + 1)
        <> "/"
        <> show_nat p.num_flushes
        <> "  "
        <> "bucket="
        <> show_date (bucket / 86400000000)
        <> " "
        <> show_minute ":" (bucket / 1000000)
        <> " UTC")

  -- `for flush_idx in range(NUM_FLUSHES)`, with the rounds that are left.
  unfoldable pub write_windows : ℕ → ℕ → ℕ → Script ℕ
  write_windows zero flush_idx total = pure total
  write_windows (suc n) flush_idx total = do
    show_window flush_idx
    written ← write_readings flush_idx p.readings_per_flush 0 total
    print (
        "    -> "
        <> show_nat p.readings_per_flush
        <> " rows written  (total "
        <> show_nat written
        <> ")")
    write_windows n (suc flush_idx) written

-- The lines before the first window.
abbrev pub announce : Plan → ℕ → ℕ → Script Unit
announce p start t = do
  print (
      "\n[seed] Writing "
      <> show_nat p.num_flushes
      <> " windows × "
      <> show_nat p.readings_per_flush
      <> " rows "
      <> "across "
      <> show_nat p.num_devices
      <> " devices...")
  print ("       Start : " <> show_iso start)
  print ("       End   : " <> show_iso t)
  print "       Window: 10 min  TTL: 43200s\n"

unfoldable pub seed_data : Plan → Draws → Script Unit
seed_data p d = do
  use_keyspace p.keyspace
  prepare (insert_cql p.keyspace p.table)
  t ← now
  let start = t - micros (window_minutes * p.num_flushes)
  announce p start t
  total ← write_windows p d (map d.device_id (ids_from 0 p.num_devices)) start p.num_flushes 0 0
  print (
      "\n[seed] Complete — "
      <> show_nat total
      <> " rows written across "
      <> show_nat p.num_flushes
      <> " windows.")
  print (
      "       Wait ~10 min for the current window to close,\n"
      <> "       then run `--status` to see TWCS compact closed windows.")
