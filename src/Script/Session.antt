-- ===== src/Script/Session.antt =====
-- Connecting as the connection library does (sample_app/scylla_connection_library.py,
-- `build_cluster_and_session`).
use scylla_k8s_example.Base.{String, ◌<>◌, Bool, Option, none, some, List, []}
use scylla_k8s_example.Base.{if◌then◌else◌, ◌&&◌, is_empty}
use scylla_k8s_example.Base.Text.{strip, read_int}
use scylla_k8s_example.Connection.{
  Config, Options, Files, build_config, is_local_only, resolve_connection,
}
use scylla_k8s_example.Script.{
  Script, configured, raise, connect_to, with_session, maybe, exit, pure, emit, logged, for_each,
  ◌>>=◌,
}
use scylla_k8s_example.Script.Open.{Closes, Closes-with_session, Closes-raise, closes_rules}
use scylla_k8s_example.Script.Sends.{
  View, Sends, Sends-pure, Sends-bind, Sends-exit, Sends-raise, Sends-maybe, Sends-log,
  Sends-silent, Sends-connect_to,
}

-- The arguments of `build_cluster_and_session`.
pub record Place : Type 0 where
  pub hosts : List String
  pub port : String
  pub username : String
  pub password : String
  pub dc : String
  pub local_only : Bool
  pub rack : Option String

abbrev pub config_of : Place → Option Config
config_of p = build_config p.hosts p.port p.username p.password p.dc p.local_only p.rack

-- The message of the exception where there is no configuration.
abbrev pub no_config : Place → String
no_config p =
    if is_empty p.hosts && is_local_only p.hosts p.local_only
    then "list index out of range"
    else elim (read_int (strip p.port)) [
      | none ↦ "invalid literal for int() with base 10: '" <> p.port <> "'"
      | some n ↦ "list index out of range"
    ]

unfoldable pub build_session : Place → Script Unit
build_session p = maybe (config_of p) (raise (no_config p)) (λ c. connect_to (configured c))

-- `resolve_connection`: its lines, and its result or the exit.
unfoldable pub resolved : Options → Files → Script (List String × (String × String))
resolved opts files =
    let (lines, r) = resolve_connection opts files in
    for_each lines (λ line. emit (logged line)) >>= λ _. maybe r (exit 1) (λ p. pure p)

-- A block with a session of its own.
unfoldable pub with_place : {A : Type 0} → Place → Script A → Script A
with_place p body =
    maybe (config_of p) (raise (no_config p)) (λ c. with_session (configured c) body)

module _ {A : Type 0} where
  with_config :
      (o : Option Config) (m : String) {body : Script A}
      → Closes body
      → Closes (maybe o (raise m) (λ c. with_session (configured c) body))
  unfolding maybe
  with_config none m kb = Closes-raise m
  with_config (some c) m kb = Closes-with_session (configured c) kb

  pub Closes-with_place : (p : Place) {body : Script A} → Closes body → Closes (with_place p body)
  unfolding with_place
  Closes-with_place p kb = with_config (config_of p) (no_config p) kb

pub Closes-resolved : (opts : Options) (files : Files) → Closes (resolved opts files)
unfolding resolved
Closes-resolved opts files = search closes_rules depth 8

module _ {X : Type 0} (view : View X) where
  pub Sends-build_session : (p : Place) → Sends view (build_session p) []
  unfolding build_session
  Sends-build_session p =
      Sends-maybe view (config_of p) (Sends-raise view _ []) (λ c. Sends-connect_to view _)

  pub Sends-resolved : (opts : Options) (files : Files) → Sends view (resolved opts files) []
  unfolding resolved
  Sends-resolved opts files =
      let (lines, r) = resolve_connection opts files in
      Sends-bind view (Sends-silent view lines (λ line. Sends-log view line))
        (λ _. Sends-maybe view r (Sends-exit view 1 []) (λ p. Sends-pure view p))
