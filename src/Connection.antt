-- ===== src/Connection.antt =====
-- The connection of the sample tools (sample_app/scylla_connection_library.py): the contact points,
-- the check of the TLS material, and the arguments of the driver's `Cluster`.
pub mod Secure
use scylla_k8s_example.Base.{
  ℕ, zero, suc, ◌≡◌, refl, String, ◌<>◌, Bool, true, false, not, ◌&&◌, ◌||◌, Option, none, some,
  List, [], ◌∷◌, map,
}
use scylla_k8s_example.Base.{
  keep, all, if◌then◌else◌, string_eq, ◌==◌, and_then, contains, length, is_empty,
}
use scylla_k8s_example.Base.Text.{strip, split, split_first, read_int, show_nat, join, ℤ}

abbrev pub default_port : String
default_port = "9042"

abbrev pub tls_port : String
tls_port = "9142"

abbrev pub mtls_username : String
mtls_username = "mtls"

-- The parsed options of `add_connection_args`.
pub record Options : Type 0 where
  pub hosts : String
  pub username : String
  pub password : String
  pub local_only : Bool
  pub mtls : Bool
  pub tls : Bool
  pub dc : String
  pub rack : Option String

-- `parts[1] if len(parts) > 1 else DEFAULT_PORT`
unfoldable pub second_part : List String → String
second_part (a ∷ b ∷ parts) = b
second_part _ = default_port

unfoldable pub parse_hosts : String → List String × String
unfolding second_part
parse_hosts host_spec =
    let hosts =
      map (λ h. split_first b':' (strip h))
        (keep (λ h. not (strip h == "")) (split b',' host_spec)) in
    (hosts, second_part (split b':' (strip host_spec)))

-- The file system: `os.path.lexists`, `os.path.isdir` and `os.path.isfile`.
pub record Files : Type 0 where
  pub exists : String → Bool
  pub is_dir : String → Bool
  pub is_file : String → Bool

abbrev pub config_dir : String
config_dir = "./config"

abbrev pub required_files : List String
required_files = "./config/ca.crt" ∷ "./config/tls.crt" ∷ "./config/tls.key" ∷ []

pub data Line : Type 0 where
  info : String → Line
  warning : String → Line
  error : String → Line

-- What a call has logged, and its result, or nothing after `sys.exit(1)`.
abbrev pub Logged : Type 0 → Type 0
Logged A = List Line × Option A

-- The loop over the required files.
unfoldable pub first_missing : Files → List String → Option String
first_missing f [] = none
first_missing f (path ∷ paths) = if f.is_file path then first_missing f paths else some path

-- `{hosts}` in a message
abbrev pub show_hosts : List String → String
show_hosts [] = "[]"
show_hosts hosts = "['" <> join "', '" hosts <> "']"

-- The rest of the check: the file that is missing, or the connection with TLS.
abbrev pub checked :
    Options → List String → Option String → Logged (List String × (String × String))
checked opts hosts (some path) = (error ("Required TLS file not found: " <> path) ∷ [], none)
checked opts hosts none =
    if opts.mtls
    then (
      info ("Connecting to cluster: " <> show_hosts hosts <> " with mTLS authentication") ∷ [],
      some (hosts, (tls_port, mtls_username)),
    )
    else (
      info (
            "Connecting to cluster: "
            <> show_hosts hosts
            <> " with username/password authentication with TLS: "
            <> opts.username)
          ∷ [],
      some (hosts, (tls_port, opts.username)),
    )

unfoldable pub resolve_connection : Options → Files → Logged (List String × (String × String))
resolve_connection opts f =
    let (hosts, port) = parse_hosts opts.hosts in
    if opts.mtls || opts.tls
    then if not (f.exists config_dir) || not (f.is_dir config_dir)
      then (
        error ("TLS config directory not found or is not a directory: '" <> config_dir <> "'")
            ∷ error (
                "Please ensure '" <> config_dir
                <> "' exists and is a directory or a symbolic link to a directory.")
            ∷ [],
        none,
      )
      else checked opts hosts (first_missing f required_files)
    else (
      info (
            "Connecting to cluster: "
            <> show_hosts hosts
            <> ":"
            <> port
            <> " with username/password authentication: "
            <> opts.username)
          ∷ [],
      some (hosts, (port, opts.username)),
    )

-- The load balancing of a profile. `host_filter` keeps the hosts whose address is the given one.
pub data Policy : Type 0 where
  round_robin : Policy
  host_filter : Option String → Policy
  token_aware_dc : String → Policy
  token_aware_rack : String → String → Policy

pub data TlsVersion : Type 0 where
  tls_1_2 tls_1_3 : TlsVersion

-- What `verify_mode` asks of the server.
pub data VerifyMode : Type 0 where
  cert_none cert_optional cert_required : VerifyMode

-- What is set on the `SSLContext`: the versions, the certificates that are trusted, whether the
-- server's is verified, and the client's certificate with its key.
pub record SslContext : Type 0 where
  pub minimum_version : TlsVersion
  pub maximum_version : TlsVersion
  pub verify_locations : String
  pub verify_mode : VerifyMode
  pub certfile : String
  pub keyfile : String

-- The arguments of `Cluster`. `server_hostname` is there with TLS; `consistency` is the level
-- where one is set, and a profile in the local mode of the library has ONE; `translator` is the endpoint of a `SingleEndpointTranslator`.
pub record Config : Type 0 where
  pub contact_points : List String
  pub port : ℤ
  pub ssl_context : Option SslContext
  pub server_hostname : Option String
  pub policy : Policy
  pub consistency : Option String
  pub translator : Option String
  pub shard_aware : Bool
  pub control_connection_timeout : ℕ
  pub protocol_version : ℕ
  pub metadata : Bool
  pub auth : Option (String × String)

abbrev pub first_of : List String → Option String
first_of [] = none
first_of (h ∷ hosts) = some h

-- `hosts and hosts[0] in ('127.0.0.1', 'localhost')`, or the flag
abbrev pub is_local_only : List String → Bool → Bool
is_local_only [] local_only = local_only
is_local_only (h ∷ hosts) local_only = contains h ("127.0.0.1" ∷ "localhost" ∷ []) || local_only

abbrev pub policy_of : String → Option String → Policy
policy_of dc none = token_aware_dc dc
policy_of dc (some rack) = if rack == "" then token_aware_dc dc else token_aware_rack dc rack

-- The part that depends on the mode. `none` is the `IndexError` of `hosts[0]`.
unfoldable pub mode_config : List String → String → Bool → Option String → Config → Option Config
mode_config hosts dc local_only rack c =
    if is_local_only hosts local_only
    then and_then (first_of hosts) (λ h. some (record c {
      policy = round_robin;
      consistency = some "ONE";
      translator = some h;
      shard_aware = false;
      control_connection_timeout = 5;
      metadata = false;
    }))
    else some (record c { policy = policy_of dc rack })

abbrev pub tls_context : SslContext
tls_context = record {
  minimum_version = tls_1_2;
  maximum_version = tls_1_3;
  verify_locations = config_dir <> "/ca.crt";
  verify_mode = cert_required;
  certfile = config_dir <> "/tls.crt";
  keyfile = config_dir <> "/tls.key";
}

-- The part that depends on the port.
unfoldable pub tls_config : List String → String → Config → Option Config
tls_config hosts port c =
    if port == tls_port
    then and_then (first_of hosts)
        (λ h. some (record c { ssl_context = some tls_context; server_hostname = some h }))
    else some c

abbrev pub auth_config : String → String → Config → Config
auth_config username password c =
    if username == mtls_username then c else record c { auth = some (username, password) }

-- The arguments that `build_cluster_and_session` makes. `none` is an `IndexError` or the
-- `ValueError` of `int(port)`.
unfoldable pub build_config :
    List String → String → String → String → String → Bool → Option String → Option Config
build_config hosts port username password dc local_only rack = and_then (read_int (strip port)) λ p.
    and_then
      (mode_config hosts dc local_only rack (record {
        contact_points = hosts;
        port = p;
        ssl_context = none;
        server_hostname = none;
        policy = round_robin;
        consistency = none;
        translator = none;
        shard_aware = true;
        control_connection_timeout = 30;
        protocol_version = 4;
        metadata = true;
        auth = none;
      }))
      λ c. and_then (tls_config hosts port c) λ d. some (auth_config username password d)

-- `SingleEndpointTranslator.translate`, where one is given
abbrev pub translate : Config → String → String
translate c address = elim c.translator [ none ↦ address | some host ↦ host ]

-- A host of the driver's metadata.
pub record Host : Type 0 where
  pub datacenter : String
  pub rack : Option String

-- `len(members)` of `log_rack_placement`
unfoldable pub members : List Host → String → String → List Host
members hosts dc rack =
    keep (λ h. h.datacenter == dc && elim h.rack [ none ↦ false | some r ↦ r == rack ]) hosts

-- Whether the placement is reported (`info`) or warned of.
unfoldable pub rack_found : List Host → String → String → Bool
rack_found hosts dc rack = not (is_empty (members hosts dc rack))

-- `log_auth`: the password is shown as stars.
unfoldable pub stars : ℕ → String
stars zero = ""
stars (suc n) = "*" <> stars n

unfoldable pub auth_line : String → ℕ → Line
auth_line username password_length =
    if username == mtls_username
    then info "Authentication successful using client certificates (mTLS)"
    else info (
        "Authentication successful for user: "
        <> username
        <> ", password: "
        <> stars password_length)

parses : parse_hosts "a:9043" ≡ ("a" ∷ [], "9043")
unfolding parse_hosts split strip split_first
parses = refl

-- A list with ports gives a port that is no number.
parses_list : parse_hosts "a:9042, b:9042" ≡ ("a" ∷ "b" ∷ [], "9042, b")
unfolding parse_hosts split strip split_first
parses_list = refl
