-- ===== src/Tools/Twcs/Cluster.antt =====
-- The connection of the demonstration (sample_app/twcs/device_read_data_demo.py, `build_session` and
-- the first part of `main`).
pub mod Mirror
use scylla_k8s_example.Base.{
  String, ◌<>◌, Bool, true, false, not, ◌&&◌, ◌||◌, Option, none, some, List, [], ◌∷◌, map,
}
use scylla_k8s_example.Base.{keep, if◌then◌else◌, string_eq, ◌==◌, and_then}
use scylla_k8s_example.Base.Text.{strip, split, split_first, read_int}
use scylla_k8s_example.Connection.{
  Files, Logged, info, error, show_hosts, Config, SslContext, tls_1_2, tls_1_3, cert_required,
  round_robin, host_filter, token_aware_dc, first_of, is_local_only,
}
use scylla_k8s_example.Connection

-- `parts[1] if len(parts) > 1 else str(SCYLLA_PORT)`
abbrev pub port_of : List String → String
port_of (a ∷ b ∷ parts) = b
port_of _ = "9042"

-- The loop over `required_files`, with what follows it.
unfoldable pub require_files :
    Files → List String → Logged (String × String) → Logged (String × String)
require_files files [] rest = rest
require_files files (f_path ∷ paths) rest =
    let later = require_files files paths rest in
    if not (files.is_file f_path)
    then (error ("Required TLS file not found: " <> f_path) ∷ [], none)
    else later

-- The port and the user.
unfoldable pub check_tls :
    Connection.Options → Files → List String → String → Logged (String × String)
check_tls args files hosts port =
    if args.mtls || args.tls
    then (if not (files.exists "./config") || not (files.is_dir "./config")
        then (
          error "TLS config directory not found or is not a directory: './config'"
              ∷ error
                  "Please ensure './config' exists and is a directory or a symbolic link to a directory."
              ∷ [],
          none,
        )
        else require_files files ("./config/ca.crt" ∷ "./config/tls.crt" ∷ "./config/tls.key" ∷ [])
            (if args.mtls
              then (
                info ("Connecting to cluster: " <> show_hosts hosts <> " with mTLS authentication")
                    ∷ [],
                some ("9142", "mtls"),
              )
              else (
                info (
                      "Connecting to cluster: "
                      <> show_hosts hosts
                      <> " with username/password authentication with TLS: "
                      <> args.username)
                    ∷ [],
                some ("9142", args.username),
              )))
    else (
      info (
            "Connecting to cluster: "
            <> show_hosts hosts
            <> ":"
            <> port
            <> " with username/password authentication: "
            <> args.username)
          ∷ [],
      some (port, args.username),
    )

-- `hosts` and `port`, before the check.
unfoldable pub contact_points : String → List String × String
contact_points spec = (
  map (λ h. split_first b':' (strip h)) (keep (λ h. not (strip h == "")) (split b',' spec)),
  port_of (split b':' (strip spec)),
)

-- The part of the arguments that depends on the mode. The filter asks for the first host only when
-- it is used.
unfoldable pub profile : List String → String → Bool → Config → Config
profile hosts dc local_only c =
    if is_local_only hosts local_only
    then record c {
      policy = host_filter (first_of hosts);
      shard_aware = false;
      protocol_version = 3;
      metadata = false;
    }
    else record c {
      policy = token_aware_dc dc;
      shard_aware = true;
      protocol_version = 4;
      metadata = true;
    }

-- The TLS setup.
unfoldable pub server_name : List String → String → Option (Option String)
server_name hosts port =
    if port == "9142" then and_then (first_of hosts) (λ h. some (some h)) else some none

abbrev pub ssl_of : String → Option SslContext
ssl_of port =
    if port == "9142"
    then some (record {
      minimum_version = tls_1_2;
      maximum_version = tls_1_3;
      verify_locations = "./config/ca.crt";
      verify_mode = cert_required;
      certfile = "./config/tls.crt";
      keyfile = "./config/tls.key";
    })
    else none

-- The arguments that `build_session` makes, for a consistency level that the driver knows.
unfoldable pub session_config :
    List String → String → String → String → String → Bool → String → Option Config
session_config hosts port username password dc local_only consistency_level =
    and_then (server_name hosts port) λ name. and_then (read_int (strip port)) λ p. some (
      profile hosts dc local_only (record {
        contact_points = hosts;
        port = p;
        ssl_context = ssl_of port;
        server_hostname = name;
        policy = round_robin;
        consistency = some consistency_level;
        translator = none;
        shard_aware = true;
        control_connection_timeout = 1;
        protocol_version = 4;
        metadata = true;
        auth = if username == "mtls" then none else some (username, password);
      }))
