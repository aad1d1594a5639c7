-- ===== src/Tools/Twcs/Cluster/Mirror.antt =====
-- The connection of the demonstration beside that of the library
-- (sample_app/twcs/device_read_data_demo.py, sample_app/scylla_connection_library.py).
use scylla_k8s_example.Base.{
  ◌≡◌, refl, String, Bool, ◌||◌, Option, none, some, List, [], ◌∷◌, not, arith,
}
use scylla_k8s_example.Base.{Bool-cases, inl, inr, if◌then◌else◌, string_eq, ◌==◌, and_then}
use scylla_k8s_example.Base.Text.{read_int, strip, split, ℤ}
use scylla_k8s_example.Connection.{
  Options, Files, Logged, required_files, first_missing, checked, resolve_connection, Config,
  host_filter, first_of, is_local_only, mode_config, tls_config, build_config, parse_hosts,
  second_part,
}
use scylla_k8s_example.Tools.Twcs.Cluster.{
  contact_points, port_of, require_files, check_tls, server_name, profile, session_config,
}

-- A result of the check, beside the hosts.
abbrev pub with_hosts :
    List String → Logged (String × String) → Logged (List String × (String × String))
with_hosts hosts (lines, none) = (lines, none)
with_hosts hosts (lines, some p) = (lines, some (hosts, p))

require_files-first_missing :
    (args : Options) (files : Files) (hosts paths : List String) (rest : Logged (String × String))
    → with_hosts hosts rest ≡ checked args hosts none
    → with_hosts hosts (require_files files paths rest)
      ≡ checked args hosts (first_missing files paths)
unfolding require_files first_missing
require_files-first_missing args files hosts [] rest same = same
require_files-first_missing args files hosts (f ∷ paths) rest same =
    elim (Bool-cases (files.is_file f)) [
      | inl e ↦ rw e (require_files-first_missing args files hosts paths rest same)
      | inr e ↦ rw e refl
    ]

port_of-second_part : (parts : List String) → port_of parts ≡ second_part parts
unfolding second_part
port_of-second_part [] = refl
port_of-second_part (a ∷ []) = refl
port_of-second_part (a ∷ b ∷ parts) = refl

contact_points-parse_hosts : (spec : String) → contact_points spec ≡ parse_hosts spec
unfolding contact_points parse_hosts
contact_points-parse_hosts spec =
    let same = port_of-second_part (split b':' (strip spec)) in rw same refl

-- The demonstration reads its contact points, checks the files of TLS, logs and chooses the port and
-- the user as the library does.
pub check_tls-resolve_connection :
    (args : Options) (files : Files)
    → (let (hosts, port) = contact_points args.hosts in
        with_hosts hosts (check_tls args files hosts port) ≡ resolve_connection args files)
unfolding check_tls resolve_connection
check_tls-resolve_connection args files =
    let same = contact_points-parse_hosts args.hosts in
    rw same (elim (Bool-cases (args.mtls || args.tls)) [
      | inl e ↦
          rw e (elim (Bool-cases (not (files.exists "./config") || not (files.is_dir "./config"))) [
            | inl e1 ↦ rw e1 refl
            | inr e1 ↦ rw e1 (
                require_files-first_missing args files _ required_files _
                  (elim (Bool-cases args.mtls) [ inl e2 ↦ rw e2 refl | inr e2 ↦ rw e2 refl ]))
          ])
      | inr e ↦ rw e refl
    ])

-- How the configuration of the library has to change.
abbrev pub as_demo : List String → Bool → String → Config → Config
as_demo hosts local_only consistency_level c =
    let changed = record c {
      consistency = some consistency_level;
      control_connection_timeout = 1;
    } in
    if is_local_only hosts local_only
    then record changed {
      policy = host_filter (first_of hosts);
      translator = none;
      protocol_version = 3;
    }
    else changed

abbrev pub changed_by : (Config → Config) → Option Config → Option Config
changed_by f none = none
changed_by f (some c) = some (f c)

same_failure :
    (o : Option ℤ) (k : Config → Config) {f : ℤ → Option Config} (g : ℤ → Option Config)
    → ((p : ℤ) → f p ≡ changed_by k (g p))
    → and_then o f ≡ changed_by k (and_then o g)
same_failure none k g same = refl
same_failure (some p) k g same = same p

-- With at least one contact point, the demonstration connects where and as the library would without
-- a rack: the same ports, certificates, users and metadata, and failures. Different are the
-- consistency level, the timeout, and in the local mode the protocol, the policy, which is a filter,
-- and the translator of addresses, which is left out.
pub session_config-build_config :
    (host : String) (hosts : List String) (port username password dc : String) (local_only : Bool)
    (cl : String)
    → session_config (host ∷ hosts) port username password dc local_only cl
      ≡ changed_by
          (as_demo (host ∷ hosts) local_only cl)
          (build_config (host ∷ hosts) port username password dc local_only none)
unfolding session_config server_name profile build_config mode_config tls_config
session_config-build_config host hosts port username password dc local_only cl =
    elim (Bool-cases (port == "9142")) [
      | inl e ↦ rw e (same_failure (read_int (strip port)) _ _ (λ p. ground arith))
      | inr e ↦ rw e (same_failure (read_int (strip port)) _ _ (λ p. ground arith))
    ]
