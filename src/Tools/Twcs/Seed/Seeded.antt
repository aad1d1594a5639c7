-- ===== src/Tools/Twcs/Seed/Seeded.antt =====
-- The readings that the demonstration writes (sample_app/twcs/device_read_data_demo.py, `seed_data`).
use mathlib.Core.List.{append-nil}
use scylla_k8s_example.Base.{ℕ, zero, suc, ◌+◌, ◌-◌, ◌*◌, subst, String, List, [], ◌∷◌, map}
use scylla_k8s_example.Loader.Ranges.{ids_from}
use scylla_k8s_example.Script.{Value, text, instant}
use scylla_k8s_example.Script.Sends.{
  View, Sends, flat, Sends-pure, Sends-raise, Sends-bind, Sends-maybe, Sends-run, Sends-print,
  Sends-sleep_millis, Sends-use_keyspace, Sends-prepare, silent_bind,
}
use scylla_k8s_example.Script.Timed.{SendsAt, SendsAt-now, SendsAt-bind}
use scylla_k8s_example.Tools.Twcs.Window.{window_minutes, micros, ddate_key, reading_time}
use scylla_k8s_example.Tools.Twcs.Seed.{
  Plan, Draws, choice, reading, insert_cql, write_readings, write_windows, seed_data,
}

-- The partition and the time of a reading.
abbrev pub placed : View (Value × Value)
placed s (device ∷ ddate ∷ odate ∷ values) = (ddate, odate) ∷ []
placed s values = []

-- The reading `i` of a window.
abbrev pub place_at : ℕ → ℕ → ℕ → ℕ → Value × Value
place_at start rows flush_idx i =
    let ts = reading_time start rows flush_idx i in (text (ddate_key ts), instant ts)

abbrev pub window_readings : ℕ → ℕ → ℕ → List (Value × Value)
window_readings start rows flush_idx = map (place_at start rows flush_idx) (ids_from 0 rows)

-- The readings of all windows, of which the last ends at a time.
abbrev pub all_readings : Plan → ℕ → List (Value × Value)
all_readings p t =
    let start = t - micros (window_minutes * p.num_flushes) in
    flat (window_readings start p.readings_per_flush) (ids_from 0 p.num_flushes)

module _ (p : Plan) (d : Draws) (devices : List String) (start : ℕ) where
  Sends-write_readings :
      (flush_idx n i total : ℕ)
      → Sends placed
          (write_readings p d devices start flush_idx n i total)
          (map (place_at start p.readings_per_flush flush_idx) (ids_from i n))
  unfolding write_readings ids_from
  Sends-write_readings flush_idx zero i total = Sends-pure placed total
  Sends-write_readings flush_idx (suc n) i total =
      Sends-maybe placed (choice devices (d.pick flush_idx i)) (Sends-raise placed _ _) λ device.
        Sends-bind placed
          (Sends-bind placed
            (Sends-run placed (insert_cql p.keyspace p.table)
              (reading d start p.readings_per_flush flush_idx i device))
            (λ _. Sends-sleep_millis placed 20))
          (λ _. Sends-write_readings flush_idx n (suc i) (total + 1))

  Sends-write_windows :
      (n flush_idx total : ℕ)
      → Sends placed
          (write_windows p d devices start n flush_idx total)
          (flat (window_readings start p.readings_per_flush) (ids_from flush_idx n))
  unfolding write_windows ids_from
  Sends-write_windows zero flush_idx total = Sends-pure placed total
  Sends-write_windows (suc n) flush_idx total = Sends-bind placed (Sends-print placed _) λ _.
      Sends-bind placed (Sends-write_readings flush_idx p.readings_per_flush 0 total) λ written.
        Sends-bind placed (Sends-print placed _) λ _. Sends-write_windows n (suc flush_idx) written

-- The demonstration writes the readings of each window in order, each with the time that the window
-- and its place in it give and with the partition of that minute, where the last window ends at the
-- time that the clock showed when it started; until it is done or fails.
pub seed_data-SendsAt : (p : Plan) (d : Draws) → SendsAt placed (seed_data p d) (all_readings p)
unfolding seed_data
seed_data-SendsAt p d =
    let line = Sends-print placed in
    SendsAt-bind placed (all_readings p) (Sends-use_keyspace placed _) λ _.
      SendsAt-bind placed (all_readings p) (Sends-prepare placed _) λ _.
        SendsAt-now placed (all_readings p) λ t.
          Sends-bind placed
            (silent_bind placed (line _)
              λ _. silent_bind placed (line _) λ _. silent_bind placed (line _) λ _. line _)
            λ _. subst (Sends placed _) (append-nil (all_readings p t)) (
              Sends-bind placed (Sends-write_windows p d _ _ p.num_flushes 0 0)
                λ total. silent_bind placed (line _) λ _. line _)
