-- ===== src/Examples/Windows.antt =====
-- The theorems on the demonstration of time windows, at small inputs.
use scylla_k8s_example.Base.{
  ℕ, suc, ◌+◌, ◌≡◌, ◌≤◌, ◌<◌, ◌⊎◌, refl, String, Bool, true, false, none, some, List, [], ◌∷◌,
  arith,
}
use scylla_k8s_example.Connection.{resolve_connection, build_config}
use scylla_k8s_example.Script.Timed.{SendsAt}
use scylla_k8s_example.Tools.Twcs.Window.{
  micros, window_minutes, window_bucket, ddate_key, window_start, reading_time,
}
use scylla_k8s_example.Tools.Twcs.Window.Bounds.{reading_time-InWindow}
use scylla_k8s_example.Tools.Twcs.Cluster.{contact_points, check_tls, session_config}
use scylla_k8s_example.Tools.Twcs.Cluster.Mirror.{
  with_hosts, as_demo, changed_by, check_tls-resolve_connection, session_config-build_config,
}
use scylla_k8s_example.Tools.Twcs.Seed.{Plan, Draws, seed_data}
use scylla_k8s_example.Tools.Twcs.Seed.Seeded.{placed, all_readings, seed_data-SendsAt}
use scylla_k8s_example.Examples.Tools.{opts, files}

abbrev plan : Plan
plan = record {
  keyspace = "demo";
  table = "device_read_data";
  num_devices = 2;
  num_flushes = 3;
  readings_per_flush = 4;
}

abbrev draws : Draws
draws = record {
  device_id = λ n. "device";
  pick = λ k i. 1;
  bval = λ k i. none;
  val = λ k i. "20.0000";
}

-- 2024-02-29 12:34:56 UTC
abbrev moment : ℕ
moment = 1_709_210_096_000_000

key : ddate_key moment ≡ "2024-02-29-12-34"
unfolding ddate_key scylla_k8s_example.Base.Calendar.show_date
    scylla_k8s_example.Base.Calendar.show_minute scylla_k8s_example.Base.Text.show_nat
key = refl

bucket : window_bucket moment 10 ≡ 1_709_209_800_000_000
unfolding window_bucket
bucket = refl

reading_time-InWindow_example :
    (window_start moment 1 ≤ reading_time moment 500 1 499)
    × (reading_time moment 500 1 499 < window_start moment 2)
    × ((window_bucket (reading_time moment 500 1 499) window_minutes
          ≡ window_bucket (window_start moment 1) window_minutes)
        ⊎ (window_bucket (reading_time moment 500 1 499) window_minutes
            ≡ window_bucket (window_start moment 1) window_minutes + micros window_minutes))
reading_time-InWindow_example = reading_time-InWindow moment 500 1 499 (omega arith) (omega arith)

check_tls-resolve_connection_example :
    with_hosts
      (contact_points opts.hosts).0
      (check_tls opts files (contact_points opts.hosts).0 (contact_points opts.hosts).1)
    ≡ resolve_connection opts files
check_tls-resolve_connection_example = check_tls-resolve_connection opts files

session_config-build_config_example :
    session_config ("127.0.0.1" ∷ []) "9142" "mtls" "secret" "dc1" false "QUORUM"
    ≡ changed_by
        (as_demo ("127.0.0.1" ∷ []) false "QUORUM")
        (build_config ("127.0.0.1" ∷ []) "9142" "mtls" "secret" "dc1" false none)
session_config-build_config_example =
    session_config-build_config "127.0.0.1" [] "9142" "mtls" "secret" "dc1" false "QUORUM"

seed_data-SendsAt_example : SendsAt placed (seed_data plan draws) (all_readings plan)
seed_data-SendsAt_example = seed_data-SendsAt plan draws
