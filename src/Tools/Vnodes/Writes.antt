-- ===== src/Tools/Vnodes/Writes.antt =====
-- What the demonstration writes (sample_app/create_vnodes_ks_index_mv_counters.py, `main`).
use mathlib.Core.List.{append-nil}
use scylla_k8s_example.Base.{
  ℕ, zero, suc, ◌+◌, ◌*◌, ◌≡◌, refl, subst, String, Bool, true, Option, none, List, [], ◌∷◌, ◌++◌,
  map,
}
use scylla_k8s_example.Base.{if◌then◌else◌, nat_eq}
use scylla_k8s_example.Base.Text.{starts_with}
use scylla_k8s_example.Script.{Value, null, num, text, decimal, instant, Script, execute}
use scylla_k8s_example.Script.Sends.{
  Statement, View, Sends, flat, Sends-pure, Sends-raise, Sends-bind, Sends-print, Sends-now,
  Sends-run, Sends-execute, Sends-prepare, Sends-if, Sends-when, Sends-maybe, Sends-for_each,
  Sends-connect_to, Sends-close_cluster, silent_bind, silent_rules, Sends-silent,
}
use scylla_k8s_example.Tools.Vnodes.{
  retry_from, latest_line, reading_line, counter_line, drop_keyspace, create_keyspace, create_table,
  create_index, create_view, create_counters, insert_cql, bump_cql, error_cql, Sample, sample_data,
  reading, ages, write_device, print_line, latest_cql, by_index_cql, by_view_cql, counters_cql,
  show_region, create_schema, write_readings, read_back, main,
}

abbrev hidden : Value → Value
hidden (instant t) = null
hidden v = v

-- The statements that are no reads, without the instants among their values.
abbrev pub written : View Statement
written s values = if starts_with s "SELECT" then [] else (s, map hidden values) ∷ []

abbrev pub plain_writes : List String → List Statement
plain_writes l = map (λ s. (s, [])) l

-- The three readings of a device, and their count in the counter table.
abbrev pub device_writes : Bool → Sample → List Statement
device_writes counters d =
    map
      (λ i. (
        insert_cql,
        text d.device_id ∷ null ∷ text d.region ∷ decimal (d.temperature + i * 3) 1 ∷ [],
      ))
      (0 ∷ 1 ∷ 2 ∷ [])
    ++ (if counters then (bump_cql, num 3 ∷ text d.device_id ∷ []) ∷ [] else [])

abbrev pub all_writes : Bool → List Statement
all_writes counters =
    (plain_writes (drop_keyspace ∷ create_keyspace ∷ create_table ∷ create_index ∷ create_view ∷ [])
      ++ (if counters then (create_counters, []) ∷ [] else []))
    ++ (flat (device_writes counters) sample_data
        ++ (if counters then (error_cql, text "dev-001" ∷ []) ∷ [] else []))

Sends-retry_from :
    {A : Type 0} (n attempt attempts delay : ℕ) {fn : Script A}
    → Sends written fn []
    → Sends written (retry_from n attempt attempts delay fn) []
unfolding retry_from
Sends-retry_from zero attempt attempts delay kf = Sends-pure written none
Sends-retry_from (suc n) attempt attempts delay kf =
    let others = Sends-retry_from n (suc attempt) attempts delay kf in search silent_rules depth 12

Sends-print_line : (line : Option String) → Sends written (print_line line) []
unfolding print_line
Sends-print_line line = search silent_rules depth 8

-- A read of the tables.
Sends-read :
    (cql : String) (values : List Value)
    → starts_with cql "SELECT" ≡ true
    → Sends written (execute cql values) []
Sends-read cql values h = let k = Sends-execute written cql values in rw h at k

Sends-show_region :
    (cql region : String)
    → starts_with cql "SELECT" ≡ true
    → Sends written (show_region cql region) []
unfolding show_region
Sends-show_region cql region h =
    let read = Sends-read cql (text region ∷ []) h in
    silent_bind written (Sends-retry_from 12 1 12 5 read) λ rows.
      Sends-maybe written rows (Sends-raise written _ [])
        λ l. Sends-silent written l (λ row. Sends-print_line (reading_line row))

Sends-read_back : (counters : Bool) → Sends written (read_back counters) []
unfolding read_back starts_with
Sends-read_back counters =
    let line = Sends-print written in
    silent_bind written (line _) λ _.
      silent_bind written
        (Sends-silent written sample_data λ d.
          silent_bind written (Sends-read latest_cql (text d.device_id ∷ []) refl)
            (λ rows. Sends-print_line (latest_line rows)))
        λ _. silent_bind written (line _) λ _.
          silent_bind written (Sends-show_region by_index_cql "us-east" refl) λ _.
            silent_bind written (line _) λ _.
              silent_bind written (Sends-show_region by_view_cql "us-east" refl) λ _.
                Sends-if written counters
                  (silent_bind written (line _) λ _.
                    silent_bind written (Sends-read counters_cql [] refl) (λ rows.
                      Sends-silent written rows (λ row. Sends-print_line (counter_line row))))
                  (line _)

Sends-create_schema :
    (counters : Bool)
    → Sends written (create_schema counters) (
        plain_writes
          (drop_keyspace ∷ create_keyspace ∷ create_table ∷ create_index ∷ create_view ∷ [])
        ++ (if counters then (create_counters, []) ∷ [] else []))
unfolding create_schema starts_with
Sends-create_schema counters =
    let line = Sends-print written in
    let send = λ (cql : String). Sends-run written cql [] in
    Sends-bind written (line _) λ _. Sends-bind written (send drop_keyspace) λ _.
      Sends-bind written (line _) λ _. Sends-bind written (send create_keyspace) λ _.
        Sends-bind written (line _) λ _. Sends-bind written (send create_table) λ _.
          Sends-bind written (line _) λ _. Sends-bind written (send create_index) λ _.
            Sends-bind written (line _) λ _. Sends-bind written (send create_view) λ _.
              Sends-when written counters (Sends-bind written (line _) λ _. send create_counters)

Sends-write_device :
    (counters : Bool) (t : ℕ) (d : Sample)
    → Sends written (write_device counters t d) (device_writes counters d)
unfolding write_device starts_with
Sends-write_device counters t d =
    Sends-bind written
      (Sends-for_each written ages (λ i. (insert_cql, map hidden (reading 0 d i)) ∷ [])
        (λ i. Sends-run written insert_cql (reading t d i)))
      λ _. Sends-when written counters (Sends-run written bump_cql _)

Sends-write_readings :
    (counters : Bool)
    → Sends written (write_readings counters) (
        flat (device_writes counters) sample_data
        ++ (if counters then (error_cql, text "dev-001" ∷ []) ∷ [] else []))
unfolding write_readings starts_with
Sends-write_readings counters = Sends-bind written (Sends-prepare written _) λ _.
    Sends-bind written (Sends-if written counters (Sends-prepare written _) (Sends-pure written tt))
      λ _. Sends-bind written (Sends-now written) λ t.
        Sends-bind written (Sends-print written _) λ _.
          Sends-bind written
            (Sends-for_each written sample_data (device_writes counters)
              (Sends-write_device counters t))
            λ _. Sends-when written counters (Sends-run written error_cql _)

-- The statements of the script that are no reads are, in this order, those that make the keyspace,
-- the table, the index and the view, three readings for each of five devices, and with -c and only
-- then a counter table, the count of each device's readings and one error; until it is done or fails.
pub main-Writes : (counters : Bool) → Sends written (main counters) (all_writes counters)
unfolding main
main-Writes counters = Sends-bind written (Sends-connect_to written _) λ _.
    Sends-bind written (Sends-create_schema counters) λ _. subst (Sends written _) (append-nil _) (
      Sends-bind written (Sends-write_readings counters)
        λ _. Sends-bind written (Sends-read_back counters) (λ _. Sends-close_cluster written))
