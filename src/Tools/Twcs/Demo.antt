-- ===== src/Tools/Twcs/Demo.antt =====
-- The status and the run of the demonstration (sample_app/twcs/device_read_data_demo.py,
-- `show_status`, `print_compact_guide`, `parse_args`, `main`).
use Prim.Native.Nat.{Ordering}
use Prim.Native.String.{compare, count}
use scylla_k8s_example.Base.{
  ℕ, ◌-◌, ◌/◌, String, ◌<>◌, Bool, true, false, Option, none, some, List, [], ◌∷◌, map,
}
use scylla_k8s_example.Base.{if◌then◌else◌, ltb, and_then}
use scylla_k8s_example.Base.Text.{show_nat, repeat_text, strip, read_int}
use scylla_k8s_example.Connection.{Files, show_hosts, is_local_only, info}
use scylla_k8s_example.Connection
use scylla_k8s_example.Script.{
  Value, null, num, text, configured, Script, pure, raise, exit, maybe, ◌>>=◌, ◌>>◌, print, log,
  emit, logged,
}
use scylla_k8s_example.Script.{use_keyspace, execute, connect_to, for_each}
use scylla_k8s_example.Tools.Twcs.Cluster.{contact_points, check_tls, session_config}
use scylla_k8s_example.Tools.Twcs.Seed.{Plan, Draws, setup_schema, seed_data}

-- `r.ddate` and `r.cnt` of the rows.
unfoldable pub counts : List (List Value) → Option (List (String × ℕ))
counts [] = some []
counts ((text ddate ∷ num cnt ∷ row) ∷ rows) = and_then (counts rows) λ l. some ((ddate, cnt) ∷ l)
counts (row ∷ rows) = none

-- `sorted(rows, key=lambda r: r.ddate)`, which keeps the order of equal keys.
abbrev pub is_later : Ordering → Bool
is_later Ordering.gt = true
is_later _ = false

unfoldable pub insert_count : String × ℕ → List (String × ℕ) → List (String × ℕ)
insert_count c [] = c ∷ []
insert_count c (d ∷ l) =
    let later = insert_count c l in if is_later (compare c.0 d.0) then d ∷ later else c ∷ d ∷ l

unfoldable pub sort_counts : List (String × ℕ) → List (String × ℕ)
sort_counts [] = []
sort_counts (c ∷ l) = insert_count c (sort_counts l)

-- `f"  {r.ddate}  {r.cnt:6d} rows  {bar}"`
abbrev pub count_line : String × ℕ → String
count_line (ddate, cnt) =
    let bar = repeat_text (if ltb (cnt / 10) 40 then cnt / 10 else 40) "█" in
    "  "
    <> ddate
    <> "  "
    <> repeat_text (6 - count (show_nat cnt)) " "
    <> show_nat cnt
    <> " rows  "
    <> bar

-- The lines of the rows. One row alone is not compared, so its key may be null.
abbrev pub status_lines : List (List Value) → Option (List String)
status_lines ((null ∷ num cnt ∷ row) ∷ []) = some (count_line ("None", cnt) ∷ [])
status_lines rows = and_then (counts rows) λ l. some (map count_line (sort_counts l))

unfoldable pub show_status : Plan → Script Unit
show_status p = do
  use_keyspace p.keyspace
  print ("\n[status] Row counts by ddate bucket in " <> p.keyspace <> "." <> p.table <> ":")
  print "  (each ddate = one x-min partition in demo mode)\n"
  rows ←
      execute
        ("SELECT ddate, COUNT(*) as cnt FROM " <> p.keyspace <> "." <> p.table
          <> " ALLOW FILTERING")
        []
  maybe (status_lines rows) (raise "'<' not supported between instances of 'NoneType' and 'str'")
      (λ lines. for_each lines (λ line. print line))
  print (
      "\n[status] For SSTable-level visibility run on the ScyllaDB node:\n"
      <> "   nodetool tablestats " <> p.keyspace <> "." <> p.table <> "\n"
      <> "   nodetool compactionstats\n")

abbrev pub compact_guide : String
compact_guide =
    "\n━━━━━━━━━━━━━━━━━━━━━━━━━━━━━━━━━━━━━━━━━━━━━━━━━━━━━━━━━━━━\n  How to compact a TWCS table without destroying window boundaries\n━━━━━━━━━━━━━━━━━━━━━━━━━━━━━━━━━━━━━━━━━━━━━━━━━━━━━━━━━━━━\n\nThe key insight\n───────────────\nnodetool compact (major compaction) merges ALL SSTables into ONE,\ndestroying every window boundary. For a 9 TB TWCS table this means:\n\n  • Disk spikes to ~18 TB during compaction (2x headroom needed)\n  • The single output SSTable won't expire until the NEWEST row's\n    TTL elapses — i.e. ~450 days from when you ran compact, not\n    from when the data was originally written\n  • You lose all incremental SSTable-drop benefits of TWCS\n\nThere is NO nodetool command that compacts one TWCS window in isolation.\n\nWhat you CAN do safely\n──────────────────────\n\nOption 1 — Do nothing (recommended for append-only + TTL tables)\n  TWCS drops entire SSTables automatically once every row inside\n  has expired. For a no-delete, TTL-only table this is free and\n  requires zero manual intervention.\n\n  Monitor progress:\n    nodetool tablestats shifteos2.device_read_data | grep SSTable\n    nodetool compactionstats\n\nOption 2 — Flush + let TWCS close the current window\n  If you have data stuck in memtable that hasn't been flushed into\n  a sealed window SSTable yet:\n\n    nodetool flush shifteos2 device_read_data\n\n  TWCS will then automatically compact the newly flushed SSTables\n  within their window once min_threshold (4) is reached.\n\nOption 3 — scrub (fixes corrupt SSTables, does NOT merge windows)\n    nodetool scrub shifteos2 device_read_data\n\nOption 4 — upgradesstables (rewrites format, preserves windows)\n  Use only when upgrading ScyllaDB versions or changing compression:\n    nodetool upgradesstables shifteos2 device_read_data\n\nOption 5 — If tombstone_gc was disabled (your production situation)\n  After re-enabling tombstone_gc:\n    1. Wait gc_grace_seconds (3600 s) for the setting to propagate\n    2. Run: nodetool flush shifteos2 device_read_data\n    3. TWCS background compaction will then pick up each closed window\n       and purge expired tombstones within that window's SSTable\n    4. Fully expired windows drop automatically — no compact needed\n\nFor the 9 TB device_read_data with tombstone_gc re-enabled\n──────────────────────────────────────────────────────────\n  DO NOT run: nodetool compact shifteos2 device_read_data\n    -> Would spike disk to ~18 TB, lock all data for 450+ days\n\n  DO run:\n    nodetool flush shifteos2 device_read_data\n    # then monitor — TWCS handles the rest automatically\n    watch -n 30 'nodetool compactionstats && nodetool tablestats \\\n      shifteos2.device_read_data | grep -E \"SSTable|Space\"'\n\n━━━━━━━━━━━━━━━━━━━━━━━━━━━━━━━━━━━━━━━━━━━━━━━━━━━━━━━━━━━━\n"

-- `parse_args`
pub record Options : Type 0 where
  pub connection : Connection.Options
  pub plan : Plan
  pub cl : String
  pub seed_only : Bool
  pub status : Bool
  pub compact_guide : Bool

-- The message of the exception where there is no configuration.
abbrev pub no_session : String → String
no_session port = elim (read_int (strip port)) [
  | none ↦ "invalid literal for int() with base 10: '" <> port <> "'"
  | some n ↦ "list index out of range"
]

unfoldable pub build_session : Options → List String → String → String → Script Unit
build_session args hosts port username = do
  (if is_local_only hosts args.connection.local_only
      then log "Local-only mode: HostFilterPolicy + no discovery"
      else log ("Using TokenAwarePolicy with local_dc: " <> args.connection.dc))
  maybe
      (session_config hosts port username args.connection.password args.connection.dc
        args.connection.local_only args.cl)
      (raise (no_session port))
      (λ c. do
        log (
            "Connecting: hosts="
            <> show_hosts hosts
            <> ", port="
            <> port
            <> ", auth="
            <> username
            <> ", local_only="
            <> (if is_local_only hosts args.connection.local_only then "True" else "False"))
        connect_to (configured c)
        log "Session created successfully")

-- The part of `main` after the session is made. `__file__` is `file`.
unfoldable pub demonstrate : Options → Draws → String → Script Unit
demonstrate args d file = if args.status then show_status args.plan else do
  (if args.seed_only then pure tt else setup_schema args.plan)
  seed_data args.plan d
  show_status args.plan
  print "\nNext steps:"
  print ("  • Run `python " <> file <> " --compact-guide` for TWCS compaction guidance")
  print ("  • Run `python " <> file <> " --status` again after 10 min to see window close")
  print "  • Wait 720 min for TTL expiry, then watch SSTables drop automatically\n"

unfoldable pub main : Options → Draws → String → Files → Script Unit
main args d file files =
    if args.compact_guide
    then print compact_guide
    else let (hosts, spec_port) = contact_points args.connection.hosts in
      let (lines, r) = check_tls args.connection files hosts spec_port in
      do
        for_each lines (λ line. emit (logged line))
        maybe r (exit 1) λ p.
            let (port, username) = p in
            maybe (read_int (strip port)) (raise (no_session port)) λ n. do
              print ("Connecting to ScyllaDB at " <> show_hosts hosts <> ":" <> port <> "...")
              build_session args hosts port username
              print "Connected.\n"
              demonstrate args d file
