-- ===== src/Convert/Main.antt =====
-- The run of the program (sample_app/convert_to_tablets.py, `connect`, `main`): the arguments of the
-- driver's `Cluster`, and what is done once it is connected.
pub mod Ends
pub mod Safety
use scylla_k8s_example.Base.{
  ℕ, String, ◌<>◌, Bool, true, false, not, ◌&&◌, ◌||◌, Option, none, some, List, [], ◌∷◌, map,
}
use scylla_k8s_example.Base.{keep, is_empty, length, if◌then◌else◌, string_eq, nat_eq, ◌==◌}
use scylla_k8s_example.Base.Text.{strip, words, show_nat, join}
use scylla_k8s_example.Base.Dict.{Dict}
use scylla_k8s_example.Exec.{
  Exc, Result, ok, raised, diverged, fatal, api_error, request_error, crash, shut_down,
}
use scylla_k8s_example.Exec.{
  Exec, pure, raise, gets, ◌>>=◌, ◌>>◌, maybe, for_each, say, complain, emit,
}
use scylla_k8s_example.Convert.Kube.{K8s, PodEnv, connect_k8s}
use scylla_k8s_example.Convert.Nodes.{Host, Node, label, has_host, discover_nodes, pick_control}
use scylla_k8s_example.Convert.Preflight.Schema.{Keyspace}
use scylla_k8s_example.Convert.Restart.{Options, require}
use scylla_k8s_example.Convert.Report.{print_status}
use scylla_k8s_example.Convert.Status.{host_of}
use scylla_k8s_example.Convert.Phases.{rollback, migrate}

-- The options of the connection.
pub record Access : Type 0 where
  pub hosts : String
  pub username : String
  pub password : String
  pub tls : Bool
  pub mtls : Bool

-- The arguments of `Cluster`. `client_certificate` says whether one is loaded.
pub record Connect : Type 0 where
  pub contact_points : List String
  pub port : ℕ
  pub server_hostname : Option String
  pub client_certificate : Bool
  pub auth : Option (String × String)

-- `replace(",", " ").split()`, stripped
unfoldable pub contact_points : String → List String
contact_points hosts = keep (λ h. not (strip h == "")) (map strip (words hosts))

with_hosts : Access → Bool → List String → Option Connect
with_hosts a has_certificate [] = none
with_hosts a has_certificate (h ∷ hosts) =
    let secure = a.tls || a.mtls in
    some (record {
      contact_points = h ∷ hosts;
      port = if secure then 9142 else 9042;
      server_hostname = if secure then some h else none;
      client_certificate = secure && (a.mtls || has_certificate);
      auth = if a.mtls then none else some (a.username, a.password);
    })

-- `connect`, for whether the client's certificate and key are there. `none` is its `Fatal`.
unfoldable pub connect : Access → Bool → Option Connect
unfolding with_hosts
connect a has_certificate = with_hosts a has_certificate (contact_points a.hosts)

-- What the driver's metadata holds once it is connected.
pub record Metadata : Type 0 where
  pub cluster_name : Option String
  pub hosts : List Host
  pub schema : Dict Keyspace

-- `API_PORT = opts.api_port`
set_api_port : ℕ → Exec Unit
set_api_port port e s = (ok tt, record s { api_port = port })

or_unknown : String → String
or_unknown s = if s == "" then "?" else s

-- The nodes without an address, of which each is complained.
unfoldable pub without_address : List Node → Exec (List Node)
without_address [] = pure []
without_address (n ∷ nodes) = do
  host ← host_of n
  rest ← without_address nodes
  pure (if has_host host then rest else n ∷ rest)

complain_of : ℕ → Node → Exec Unit
unfolding or_unknown
complain_of port n = do
  addresses ← gets (λ s. s.addresses n.host_id)
  l ← label n
  complain (
      "error: no ScyllaDB API on port "
      <> show_nat port
      <> " at "
      <> or_unknown (join ", " addresses)
      <> " for "
      <> l)

check_addresses : ℕ → List Node → Exec Unit
unfolding complain_of
check_addresses port nodes = do
  missing ← without_address nodes
  if is_empty missing then pure tt else (do
    for_each missing (complain_of port)
    raise (fatal "every node's REST API must be reachable from this pod"))

name_node : Node → Exec Unit
name_node n = label n >>= λ l. say ("  " <> l)

-- The report, the rollback or the migration, as the options say.
unfoldable pub dispatch : Metadata → Node → List Node → Options → K8s → Exec Unit
dispatch m control nodes opts k8s =
    if opts.status
    then print_status control nodes opts.keyspaces
    else if opts.rollback
    then rollback control nodes opts k8s
    else migrate m.schema control nodes opts k8s

run_on : Metadata → List Node → Options → K8s → Node → Exec Unit
unfolding name_node
run_on m nodes opts k8s control = do
  say (
      "Cluster "
      <> or_unknown (elim m.cluster_name [ none ↦ "" | some name ↦ name ])
      <> " ("
      <> opts.dc
      <> ") - "
      <> show_nat (length nodes)
      <> " node(s):")
  for_each nodes name_node
  say ("Keyspace(s): " <> join " " opts.keyspaces)
  dispatch m control nodes opts k8s

-- The body of the `try` of `main`.
unfoldable pub run : Metadata → PodEnv → Options → Exec Unit
unfolding check_addresses run_on
run m p opts = do
  let k8s = connect_k8s p
  nodes ← discover_nodes m.hosts k8s
  require (not (is_empty nodes)) (pure "the CQL topology is empty - is the cluster up?")
  check_addresses opts.api_port nodes
  control ← pick_control nodes none
  maybe control (raise (fatal "no node is answering its REST API - is the cluster up?"))
      (run_on m nodes opts k8s)

-- `try: ... finally: cluster.shutdown()`
closing : Exec Unit → Exec Unit
closing body e s = let (r, s') = body e s in (r, record s' { trace = shut_down ∷ s'.trace })

unfoldable pub main : Access → Bool → Metadata → PodEnv → Options → Exec Unit
unfolding closing set_api_port
main a has_certificate m p opts = set_api_port opts.api_port >>= λ _.
    maybe (connect a has_certificate) (raise (fatal "no CQL contact points given (-s)"))
      (λ _. closing (run m p opts))

-- The message of the last `except`, and the status of the process.
unfoldable pub report_error : Result (Unit {0}) → Exec ℕ
report_error (ok u) = pure 0
report_error (raised (fatal m)) = complain ("\nerror: " <> m) >>= λ _. pure 1
report_error (raised (api_error m)) = complain ("\nerror: " <> m) >>= λ _. pure 1
report_error (raised (request_error m)) = complain ("\nerror: " <> m) >>= λ _. pure 1
report_error (raised (crash m)) = pure 1
report_error diverged = pure 1
