-- ===== src/Examples/Migration.antt =====
-- Runs of sample_app/convert_to_tablets.py, and its theorems on the cluster of the examples.
use scylla_k8s_example.Base.{◌≤◌, arith, true, false, refl, ◌≡◌, List, [], ◌∷◌, none, some}
use scylla_k8s_example.Exec.{Result, St, sent, rest, post, keyspace_status, response}
use scylla_k8s_example.Exec.Emits.{Emits}
use scylla_k8s_example.Exec.Guarded.{Guarded}
use scylla_k8s_example.Convert.Nodes.Choice.{Choice}
use scylla_k8s_example.Convert.Phases.{migrate, rollback}
use scylla_k8s_example.Convert.Phases.Guards.{Consent}
use scylla_k8s_example.Convert.Phases.Finalization.{
  IsFinal, Ready, finalize_prompt, downgrade_prompt,
}
use scylla_k8s_example.Convert.Phases.Finalization.{migrate-Guarded, rollback-Guarded}
use scylla_k8s_example.Convert.Phases.Changes.{
  IsChange, IsDisruptive, Look, AllMigrating, start_prompt,
}
use scylla_k8s_example.Convert.Phases.Changes.{
  migrate-Consent, migrate-AllMigrating, rollback-Prepared,
}
use scylla_k8s_example.Convert.Blob.{Bytes, find, same_bytes, decode_extension}
use scylla_k8s_example.Convert.Blob.Roundtrip.{encode_extension, decode_extension-encode_extension}
use scylla_k8s_example.Exec.{Event, slept, queried, said, complained, asked, shut_down}
use scylla_k8s_example.Exec.Halts.{Halts}
use scylla_k8s_example.Convert.Waits.{Ticks}
use scylla_k8s_example.Convert.Main.Ends.{main-Halts}
use scylla_k8s_example.Convert.Main.{main}
use scylla_k8s_example.Convert.Main.Safety.{AtGoal, main-Guarded, main-Look}
use scylla_k8s_example.Examples.Cluster.{
  access, metadata, in_pod, blank, node_a, both, opts, client, schema, env, start,
}

abbrev after_migration : Result (Unit {0}) × St
after_migration = migrate schema node_a both opts client env start

-- A migration of the keyspace has been started.
abbrev begun : St
begun = record start {
  trace =
      sent (rest post "10.0.0.1" 10000 (keyspace_status "ks") none 60)
        (response (record { status = 200; text = ""; json = none }))
      ∷ [];
}

abbrev after_rollback : Result (Unit {0}) × St
after_rollback = rollback node_a both opts client env begun

migrate-Guarded_example :
    Guarded IsFinal (Ready "tablets" both opts (finalize_prompt opts)) [] after_migration.1.trace
migrate-Guarded_example = migrate-Guarded schema node_a both opts client env start

migrate-AllMigrating_example :
    Guarded IsDisruptive (AllMigrating ("ks" ∷ [])) [] after_migration.1.trace
migrate-AllMigrating_example = migrate-AllMigrating schema node_a both opts client env start

migrate-Consent_example :
    Guarded IsChange (Consent opts.yes_ (start_prompt opts)) [] after_migration.1.trace
migrate-Consent_example = migrate-Consent schema node_a both opts client env start

rollback-Guarded_example :
    Guarded IsFinal
      (Ready "vnodes" both opts (downgrade_prompt both))
      begun.trace
      after_rollback.1.trace
rollback-Guarded_example = rollback-Guarded node_a both opts client env begun

rollback-Prepared_example :
    Guarded IsChange
      (λ t. AllMigrating ("ks" ∷ []) t × Consent opts.yes_ (downgrade_prompt both) t)
      begun.trace
      after_rollback.1.trace
rollback-Prepared_example = rollback-Prepared node_a both opts client env begun

-- `{"mode": "repair"}`
abbrev repair : List (Bytes × Bytes)
repair = (109 ∷ 111 ∷ 100 ∷ 101 ∷ [], 114 ∷ 101 ∷ 112 ∷ 97 ∷ 105 ∷ 114 ∷ []) ∷ []

decode_extension-encode_extension_example :
    find (109 ∷ 111 ∷ 100 ∷ 101 ∷ []) (decode_extension (encode_extension repair))
    ≡ some (114 ∷ 101 ∷ 112 ∷ 97 ∷ 105 ∷ 114 ∷ [])
unfolding same_bytes
decode_extension-encode_extension_example =
    decode_extension-encode_extension repair (omega arith) (omega arith, (omega arith, tt))
      (109 ∷ 111 ∷ 100 ∷ 101 ∷ [])

abbrev after_main : Result (Unit {0}) × St
after_main = main access false metadata in_pod opts env blank

main-Guarded_example :
    Guarded IsFinal
      (AtGoal metadata in_pod opts env (record blank { api_port = 10000 }))
      []
      after_main.1.trace
main-Guarded_example = main-Guarded access false metadata in_pod opts env blank

main-Look_example : Emits Look (main access false metadata in_pod (record opts { status = true }))
main-Look_example = main-Look access false metadata in_pod (record opts { status = true }) refl

env-Ticks : Ticks env
env-Ticks = record { onward = onward_in; sleeps = λ n t. omega arith }
  where
    onward_in : (ev : Event) (t : List Event) → env.now t ≤ env.now (ev ∷ t)
    onward_in (slept n) t = omega arith
    onward_in (sent c r) t = omega arith
    onward_in (queried keyspace) t = omega arith
    onward_in (said line) t = omega arith
    onward_in (complained line) t = omega arith
    onward_in (asked prompt line) t = omega arith
    onward_in shut_down t = omega arith

main-Halts_example : Halts env (main access false metadata in_pod opts)
main-Halts_example = main-Halts env-Ticks access false metadata in_pod opts
