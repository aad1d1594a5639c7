-- ===== src/Examples/Scripts.antt =====
-- The theorems on the scripts, at small inputs.
use scylla_k8s_example.Base.{
  ℕ, ◌≡◌, refl, ◌+◌, inl, String, true, false, none, some, List, [], ◌∷◌, ◌++◌, map, arith,
}
use scylla_k8s_example.Base.{if◌then◌else◌, string_eq, ◌==◌}
use scylla_k8s_example.Script.{
  World, rows, Value, num, text, Script, raise, ◌>>=◌, connect_to, execute, for_each, maybe,
  close_cluster,
}
use scylla_k8s_example.Script.{History}
use scylla_k8s_example.Script.Open.{Closes}
use scylla_k8s_example.Script.Sends.{Sends, whole, seen}
use scylla_k8s_example.Loader.Ranges.{ids_from}
use scylla_k8s_example.Loader.Row.{Row, generate_row, message_of, collect, total_length}
use scylla_k8s_example.Base.Text.{take_text, join}
use scylla_k8s_example.Loader
use scylla_k8s_example.Loader.Main.{bound}
use scylla_k8s_example.Loader.Main.Runs.{main-Closes}
use scylla_k8s_example.Loader.Main.Refusal.{Settles, Refuses, main-Settles, main-Refuses}
use scylla_k8s_example.Tools.Tombstone.{expected, fill_tables, fill_tables-Sends}
use scylla_k8s_example.Tools.Tombstone
use scylla_k8s_example.Tools.SlowLoader.{Generators, row_values, columns, load_slowly}
use scylla_k8s_example.Tools.SlowLoader
use scylla_k8s_example.Tools.SlowLoader.Ids.{id_of, load_slowly-Sends, row_values-generate_row}
use scylla_k8s_example.Tools.Vnodes.{retry}
use scylla_k8s_example.Tools.Vnodes
use scylla_k8s_example.Tools.Vnodes.Retry.{Tried, retry-Tried}
use scylla_k8s_example.Tools.Vnodes.Writes.{written, all_writes, main-Writes}
use scylla_k8s_example.Tools.CounterCopy.{select_cql}
use scylla_k8s_example.Tools.CounterCopy
use scylla_k8s_example.Tools.CounterCopy.Copied.{
  Counters, increment, row_of, views_of, replay, main-copies,
}
use scylla_k8s_example.Loader.Insert.{Tally}
use scylla_k8s_example.Examples.Tools.{draws, world}
use scylla_k8s_example.Examples.Tools

abbrev table : List (String × ℕ)
table = ("home", 42) ∷ ("docs", 8) ∷ []

-- A database that accepts everything and has two pages.
abbrev database : World
database = record {
  refuses = λ h t. none;
  answer = λ h s values. rows (if s == select_cql "vnodes_ks" then map row_of table else []);
  unprepared = λ h s. none;
  no_keyspace = λ h ks. none;
  shutdown_fails = λ h. none;
  now = λ h. 1709210096000000;
}

abbrev opts : Loader.Main.Options
opts = record {
  connection = Tools.opts;
  keyspace = "ks";
  rf = 3;
  table = "t";
  drop = true;
  row_count = 5;
  batch_size = 2;
  cl = "LOCAL_QUORUM";
  workers = 2;
  offset = 0;
  buckets = 0;
  tablets = true;
}

-- A loop that is not there.
abbrev endless : Script Tally
endless = raise "endless"

abbrev enough : Loader.Main.Options
enough = record opts { buckets = 4 }

main-Closes_example : Closes (Loader.Main.main world endless 8 enough Tools.files)
main-Closes_example =
    main-Closes world endless 8 enough Tools.files (omega arith) (omega arith) (λ i k. omega arith)

main-Settles_example : Settles (Loader.Main.main world endless 8 opts Tools.files)
main-Settles_example =
    main-Settles world endless 8 opts Tools.files (omega arith) (λ i k. omega arith)

main-Refuses_example : Refuses (Loader.Main.main world endless 8 opts Tools.files)
main-Refuses_example = main-Refuses world endless 8 opts Tools.files (inl (omega arith))

abbrev tombstone : Tombstone.Options
tombstone = record { connection = Tools.opts; keyspace = "ks"; row_count = 2 }

fill_tables-Sends_example : Sends whole (fill_tables tombstone Tools.files) (expected "ks" 2)
fill_tables-Sends_example = fill_tables-Sends tombstone Tools.files

abbrev slow : SlowLoader.Options
slow = record {
  connection = Tools.opts;
  keyspace = "ks";
  table = "t";
  row_count = 3;
  drop = false;
  cl = "ONE";
  buckets = 4;
}

abbrev generators : Generators
generators = record { draws = λ i. draws; sentence = λ i j k. "A sentence of some length." }

load_slowly-Sends_example : Sends id_of (load_slowly generators slow Tools.files) (1 ∷ 2 ∷ 3 ∷ [])
unfolding ids_from
load_slowly-Sends_example = load_slowly-Sends generators slow Tools.files

-- The message of each column.
abbrev message : String
message =
    "IMEI:123456789012345|OS:iOS|Phone:212-555-1234A sentence of some length. A sentence of some length. A sentence of some length. A sentence of some length. A sentence of some length. A sentence of some "

abbrev message_columns : List Value
message_columns = text message ∷ text message ∷ text message ∷ text message ∷ text message ∷ []

abbrev row : Row
row = record {
  bucket = 3;
  id = 3;
  ssn = "123-45-6789";
  imei = "123456789012345";
  os = "iOS";
  phonenum = "212-555-1234";
  balance = 1050;
  pdate = "2019-02-01";
  message = message;
}

row_values-generate_row_example :
    (others : List Value) × ((columns generators 2 1 4 ≡ some others)
      × (row_values draws 3 4 message_columns 1709210096000
          ≡ bound row ++ (others ++ (num 1709210096000 ∷ []))))
unfolding generate_row columns message_of collect total_length take_text join
row_values-generate_row_example =
    row_values-generate_row generators 2 4 1709210096000 {r = row} {v = message_columns} refl refl

-- A read that fails.
failing : Script (List (List Value))
failing = raise "not built yet"

retry-Tried_example :
    (let (r, h') = retry 3 5 failing database [] in Tried failing 5 database 2 [] r h')
retry-Tried_example = retry-Tried failing 3 5 database [] (omega arith)

main-Writes_example : Sends written (Vnodes.main true) (all_writes true)
main-Writes_example = main-Writes true

main-copies_example :
    (l : List (List Value)) × (t : History) × (database.answer t (select_cql "vnodes_ks") []
      ≡ rows l)
    × ((table : List (String × ℕ))
        → l ≡ map row_of table
        → (c : Counters) (page : String)
        → replay (seen increment (CounterCopy.main database []).1) c page
          ≡ c page + views_of page table)
unfolding CounterCopy.main CounterCopy.make_source CounterCopy.make_destination
    CounterCopy.copy_rows CounterCopy.copy_row CounterCopy.print_table CounterCopy.print_row ◌>>=◌
    connect_to execute for_each maybe close_cluster
main-copies_example = main-copies database refl
