-- ===== src/Examples/Tools.antt =====
-- The theorems on the other tools, at small inputs.
use scylla_k8s_example.Base.{
  ℕ, ◌≡◌, ◌≢◌, refl, ◌+◌, ◌≤◌, ◌<◌, ◌%◌, String, List, [], ◌∷◌, map, Option, none, some, inl,
  length, All, arith, true, false, suc,
}
use Prim.Native.String.{count}
use scylla_k8s_example.Base.Text.{pos}
use scylla_k8s_example.Exec.Steps.{Some}
use scylla_k8s_example.Loader.Ranges.{range}
use scylla_k8s_example.Loader.Row.{Draws, Row, generate_row, generate_row-total}
use scylla_k8s_example.Loader.Insert.{World, insert_data_parallel}
use scylla_k8s_example.Loader.Totals.{key, key_of, Ends, insert_data_parallel-total}
use scylla_k8s_example.Query.{looked_up, looked_up-sent}
use scylla_k8s_example.Connection.{
  Options, Files, Line, info, Config, tls_1_2, tls_1_3, cert_required, round_robin,
  token_aware_rack, first_of, required_files,
}
use scylla_k8s_example.Connection.{resolve_connection, build_config}
use scylla_k8s_example.Connection.Secure.{Verified, resolve_connection-build_config}
use scylla_k8s_example.Cleanup.Ranges.{get_token_ranges, Decided, get_token_ranges-Decided}
use scylla_k8s_example.Cleanup.Rows.{Entry, latest, delete_before}
use scylla_k8s_example.Cleanup.Users.{
  Database, Promises, Progress, Cleaned, cleanup, cleanup-Cleaned,
}
use scylla_k8s_example.Base.{
  sym, string_eq, ◌==◌, if◌then◌else◌, Bool-cases, inr, none≢some, some_cancel,
}
use scylla_k8s_example.Faker.{insert_full, insert_full-total}
use scylla_k8s_example.Loader.Ranges.{ids_from}
use scylla_k8s_example.Base.{◌*◌}
use scylla_k8s_example.Alternator.{Value, number, decode_alternator_blob, encode_alternator_blob}
use scylla_k8s_example.Alternator.{decode_alternator_blob-encode_alternator_blob}

abbrev pub draws : Draws
draws = record {
  ssn = "123-45-6789";
  imei = "123456789012345";
  os_name = "iOS";
  phone = "212-555-1234";
  balance = 1050;
  date = "2019-02-01";
  sentence = λ k. "A sentence of some length.";
}

abbrev pub world : World
world = record { draws = λ i. draws; execute = λ rows. inl (map (λ row. true) rows) }

insert_data_parallel-total_example :
    Ends world
      (λ t. (t.total ≡ 5) × (map key t.sent ≡ map (key_of 100 4) (range 1 6)))
      (insert_data_parallel world 100 4 5 2 2 8)
insert_data_parallel-total_example =
    insert_data_parallel-total world 100 4 (omega arith) (λ i k. omega arith) 2 (omega arith) 5 2 8

looked_up-sent_example :
    Ends world
      (λ t. Some (λ k. k ≡ looked_up 100 4 3) (map key t.sent))
      (insert_data_parallel world 100 4 5 2 2 8)
looked_up-sent_example =
    looked_up-sent world 100 4 (omega arith) (λ i k. omega arith) 2 5 2 8 3 (omega arith)
      (omega arith) (omega arith)

generate_row-total_example :
    (r : Row) × ((generate_row draws 103 4 ≡ some r)
      × ((r.id ≡ 103) × ((r.bucket ≡ 103 % 4) × ((r.bucket < 4) × (count r.message ≡ 200)))))
generate_row-total_example = generate_row-total draws 103 4 (omega arith) (λ k. omega arith)

abbrev pub opts : Options
opts = record {
  hosts = "db1,db2";
  username = "cassandra";
  password = "secret";
  local_only = false;
  mtls = true;
  tls = false;
  dc = "dc1";
  rack = some "rack1";
}

abbrev pub files : Files
files = record { exists = λ p. true; is_dir = λ p. true; is_file = λ p. true }

abbrev config : Config
config = record {
  contact_points = "db1" ∷ "db2" ∷ [];
  port = pos 9142;
  ssl_context = some (record {
    minimum_version = tls_1_2;
    maximum_version = tls_1_3;
    verify_locations = "./config/ca.crt";
    verify_mode = cert_required;
    certfile = "./config/tls.crt";
    keyfile = "./config/tls.key";
  });
  server_hostname = some "db1";
  policy = token_aware_rack "dc1" "rack1";
  consistency = none;
  translator = none;
  shard_aware = true;
  control_connection_timeout = 30;
  protocol_version = 4;
  metadata = true;
  auth = none;
}

resolved : resolve_connection opts files ≡ (
  info "Connecting to cluster: ['db1', 'db2'] with mTLS authentication" ∷ [],
  some ("db1" ∷ "db2" ∷ [], ("9142", "mtls")),
)
unfolding resolve_connection scylla_k8s_example.Connection.parse_hosts
    scylla_k8s_example.Base.Text.split scylla_k8s_example.Base.Text.strip
    scylla_k8s_example.Base.Text.split_first scylla_k8s_example.Connection.first_missing
    scylla_k8s_example.Base.Text.join
resolved = refl

built :
    build_config ("db1" ∷ "db2" ∷ []) "9142" "mtls" "secret" "dc1" false (some "rack1")
    ≡ some config
unfolding build_config scylla_k8s_example.Connection.mode_config
    scylla_k8s_example.Connection.tls_config scylla_k8s_example.Base.Text.read_int
    scylla_k8s_example.Base.Text.strip
built = refl

resolve_connection-build_config_example :
    All (λ p. files.is_file p ≡ true) required_files
    × (Verified (config.ssl_context)
        × ((config.server_hostname ≡ some "db1")
            × ((config.server_hostname ≢ none) × (config.auth ≡ none))))
resolve_connection-build_config_example =
    resolve_connection-build_config opts files _ ("db1" ∷ "db2" ∷ []) "9142" "mtls" config refl
      resolved built

get_token_ranges-Decided_example :
    (l : List (ℕ × ℕ)) × ((get_token_ranges 288230376151711744 ≡ some l) × Decided 7 l)
get_token_ranges-Decided_example = get_token_ranges-Decided 288230376151711744 7 (omega arith)

abbrev entries : List Entry
entries = ("ann", 3) ∷ ("bob", 4) ∷ ("ann", 9) ∷ []

-- A table that does not answer for one of its users.
abbrev busy : Database
busy = record {
  max_ts = λ rows user. if user == "bob" then none else some (latest user rows);
  delete = λ rows user ts. (true, delete_before user ts rows);
}

busy-Promises : Promises busy
busy-Promises = record {
  answered = λ rows user ts h. elim (Bool-cases (user == "bob")) [
    | inl e ↦ absurd (none≢some (rw e at h))
    | inr e ↦ sym (some_cancel (rw e at h))
  ];
  deleted = λ rows user ts h. refl;
  in_doubt = λ rows user ts h. cc h;
}

abbrev progress : Progress
progress = record { total_deleted = 0; rows = entries; warned = [] }

cleanup-Cleaned_example :
    (let p = cleanup busy ("ann" ∷ "bob" ∷ []) progress in
      All (λ u. Cleaned entries u p) ("ann" ∷ "bob" ∷ [])
      × ((latest "bob" p.rows ≡ latest "bob" entries) × All (λ x. x.1 ≤ 9) p.rows))
cleanup-Cleaned_example =
    cleanup-Cleaned busy busy-Promises ("ann" ∷ "bob" ∷ []) progress "bob" (λ x. x.1 ≤ 9)
      (omega arith, (omega arith, (omega arith, tt)))

encoded :
    encode_alternator_blob (number 99) ≡ some (3 ∷ 0 ∷ 0 ∷ 0 ∷ 0 ∷ 0 ∷ 0 ∷ 0 ∷ 0 ∷ 0 ∷ 99 ∷ [])
unfolding encode_alternator_blob scylla_k8s_example.Alternator.reversed
encoded = refl

decode_alternator_blob-encode_alternator_blob_example :
    decode_alternator_blob (3 ∷ 0 ∷ 0 ∷ 0 ∷ 0 ∷ 0 ∷ 0 ∷ 0 ∷ 0 ∷ 0 ∷ 99 ∷ []) ≡ some (number 99)
decode_alternator_blob-encode_alternator_blob_example =
    decode_alternator_blob-encode_alternator_blob (number 99) _ encoded

insert_full-total_example :
    (k : ℕ) × ((insert_full 6 0 5 2 10 ≡ some (ids_from 10 (k * 2)))
      × ((5 ≤ k * 2) × (k * 2 < 5 + 2)))
insert_full-total_example = insert_full-total 5 2 10 (omega arith)
