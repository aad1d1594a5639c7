-- ===== src/Connection/Secure.antt =====
-- A connection with TLS
-- (sample_app/scylla_connection_library.py, `resolve_connection`, `build_cluster_and_session`).
use scylla_k8s_example.Base.{
  ◌≡◌, ◌≢◌, refl, sym, ap, subst, ◌∙◌, String, Bool, true, ◌||◌, Option, none, some, List, [], ◌∷◌,
}
use scylla_k8s_example.Base.{
  All, Bool-cases, inl, inr, if◌then◌else◌, string_eq, ◌==◌, and_then-inverse,
}
use scylla_k8s_example.Base.{some_cancel, none≢some, not}
use scylla_k8s_example.Base.Text.{read_int, strip}
use scylla_k8s_example.Connection.{
  Options, Files, Line, required_files, first_missing, checked, resolve_connection,
}
use scylla_k8s_example.Connection.{
  Config, SslContext, cert_required, tls_1_2, tls_1_3, first_of, is_local_only, mode_config,
}
use scylla_k8s_example.Connection.{
  tls_port, tls_config, mtls_username, build_config, config_dir, auth_config,
}

first_missing-none :
    (f : Files) (paths : List String)
    → first_missing f paths ≡ none
    → All (λ p. f.is_file p ≡ true) paths
unfolding first_missing
first_missing-none f [] h = tt
first_missing-none f (p ∷ paths) h = elim (Bool-cases (f.is_file p)) [
  | inl e ↦ (e, first_missing-none f paths (rw e at h))
  | inr e ↦ absurd (none≢some (sym (rw e at h)))
]

-- The user that a connection with TLS authenticates as.
abbrev pub tls_user : Options → String
tls_user opts = if opts.mtls then mtls_username else opts.username

checked-tls :
    (opts : Options) (found : List String) (m : Option String) {lines : List Line}
    {hosts : List String} {port user : String}
    → checked opts found m ≡ (lines, some (hosts, (port, user)))
    → (m ≡ none) × ((port ≡ tls_port) × (user ≡ tls_user opts))
checked-tls opts found (some path) h = absurd (none≢some (ap (λ p. p.1) h))
checked-tls opts found none h = elim (Bool-cases opts.mtls) [
  | inl e ↦
      let same_result = some_cancel (ap (λ p. p.1) (rw e at h)) in
      (
        refl,
        (
          sym (ap (λ (r : List String × (String × String)). r.1.0) same_result),
          rw e (sym (ap (λ (r : List String × (String × String)). r.1.1) same_result)),
        ),
      )
  | inr e ↦
      let same_result = some_cancel (ap (λ p. p.1) (rw e at h)) in
      (
        refl,
        (
          sym (ap (λ (r : List String × (String × String)). r.1.0) same_result),
          rw e (sym (ap (λ (r : List String × (String × String)). r.1.1) same_result)),
        ),
      )
]

-- A connection that asked for TLS and was resolved has its files, the port of TLS and its user.
resolve_connection-tls :
    (opts : Options) (f : Files) {lines : List Line} {hosts : List String} {port user : String}
    → (opts.mtls || opts.tls) ≡ true
    → resolve_connection opts f ≡ (lines, some (hosts, (port, user)))
    → All (λ p. f.is_file p ≡ true) required_files × ((port ≡ tls_port) × (user ≡ tls_user opts))
unfolding resolve_connection
resolve_connection-tls opts f {lines} {hosts} {port} {user} asked h =
    elim (Bool-cases (not (f.exists config_dir) || not (f.is_dir config_dir))) [
      | inl e ↦ absurd (none≢some (ap (λ p. p.1) (rw e at rw asked at h)))
      | inr e ↦
          let (none_missing, secure) = checked-tls opts _ _ (rw e at rw asked at h) in
          (first_missing-none f required_files none_missing, secure)
    ]

-- The mode of a connection leaves the user open.
mode_config-auth :
    (hosts : List String) (dc : String) (local_only : Bool) (rack : Option String) (c : Config)
    {b : Config}
    → mode_config hosts dc local_only rack c ≡ some b
    → b.auth ≡ c.auth
unfolding mode_config
mode_config-auth hosts dc local_only rack c h = elim (Bool-cases (is_local_only hosts local_only)) [
  | inl e ↦
      let (first, (is_first, same)) = and_then-inverse (first_of hosts) _ (rw e at h) in
      sym (ap (λ (x : Config). x.auth) (some_cancel same))
  | inr e ↦ sym (ap (λ (x : Config). x.auth) (some_cancel (rw e at h)))
]

-- The server has to show a certificate that the authority of the cluster has signed, over TLS 1.2 or
-- 1.3, and the client shows its own.
abbrev pub Verified : Option SslContext → Type 0
Verified none = ⊥
Verified (some context) =
    (context.verify_mode ≡ cert_required)
    × ((context.verify_locations ≡ "./config/ca.crt")
        × ((context.minimum_version ≡ tls_1_2)
            × ((context.maximum_version ≡ tls_1_3)
                × ((context.certfile ≡ "./config/tls.crt")
                    × (context.keyfile ≡ "./config/tls.key")))))

-- The server's certificate has to show the first host, which there is.
abbrev Secured : List String → Config → Type 0
Secured hosts c =
    Verified c.ssl_context × ((c.server_hostname ≡ first_of hosts) × (c.server_hostname ≢ none))

tls_config-Secured :
    (hosts : List String) (c : Config) {d : Config}
    → tls_config hosts tls_port c ≡ some d
    → Secured hosts d × (d.auth ≡ c.auth)
unfolding tls_config
tls_config-Secured hosts c h =
    let (first, (is_first, same)) = and_then-inverse (first_of hosts) _ h in
    subst (λ x. Secured hosts x × (x.auth ≡ c.auth)) (some_cancel same)
      (((refl, (refl, (refl, (refl, (refl, refl))))), (sym is_first, λ n. none≢some (sym n))), refl)

-- The password of a user that is not the one of mTLS.
abbrev pub auth_of : String → String → Option (String × String)
auth_of user password = if user == mtls_username then none else some (user, password)

auth_config-lem :
    (user password : String) (hosts : List String) (d : Config)
    → Secured hosts d
    → d.auth ≡ none
    → Secured hosts (auth_config user password d)
      × ((auth_config user password d).auth ≡ auth_of user password)
auth_config-lem user password hosts d k n = elim (Bool-cases (user == mtls_username)) [
  | inl e ↦ rw e (k, n)
  | inr e ↦ rw e (k, refl)
]

build_config-Secured :
    (hosts : List String) (user password dc : String) (local_only : Bool) (rack : Option String)
    (c : Config)
    → build_config hosts tls_port user password dc local_only rack ≡ some c
    → Secured hosts c × (c.auth ≡ auth_of user password)
unfolding build_config
build_config-Secured hosts user password dc local_only rack c h =
    let (p, (_, h1)) = and_then-inverse (read_int (strip tls_port)) _ h in
    let (b, (mode, h2)) = and_then-inverse (mode_config hosts dc local_only rack _) _ h1 in
    let (d, (tls, h3)) = and_then-inverse (tls_config hosts tls_port b) _ h2 in
    let (secured, same_auth) = tls_config-Secured hosts b tls in
    let no_auth = same_auth ∙ mode_config-auth hosts dc local_only rack _ mode in
    subst (λ (x : Config). Secured hosts x × (x.auth ≡ auth_of user password)) (some_cancel h3)
      (auth_config-lem user password hosts d secured no_auth)

tls_auth :
    (opts : Options)
    → auth_of (tls_user opts) opts.password
      ≡ (if opts.mtls then none else auth_of opts.username opts.password)
tls_auth opts = elim (Bool-cases opts.mtls) [ inl e ↦ rw e refl | inr e ↦ rw e refl ]

-- If TLS was asked for and the connection was resolved, then the three files are there, and each
-- configuration built from it requires a certificate of the server, signed by the authority in
-- ca.crt and for the first host, over TLS 1.2 or 1.3, and has the client show the one in tls.crt.
-- With mTLS it sends no password, and otherwise the given one unless the user has the name that
-- stands for mTLS.
pub resolve_connection-build_config :
    (opts : Options) (f : Files) (lines : List Line) (hosts : List String) (port user : String)
    (c : Config)
    → (opts.mtls || opts.tls) ≡ true
    → resolve_connection opts f ≡ (lines, some (hosts, (port, user)))
    → build_config hosts port user opts.password opts.dc opts.local_only opts.rack ≡ some c
    → All (λ p. f.is_file p ≡ true) required_files
      × (Verified c.ssl_context
          × ((c.server_hostname ≡ first_of hosts)
              × ((c.server_hostname ≢ none)
                  × (c.auth ≡ (if opts.mtls then none else auth_of opts.username opts.password)))))
resolve_connection-build_config opts f lines hosts port user c asked resolved built =
    let (files, (is_tls, is_user)) = resolve_connection-tls opts f asked resolved in
    let secure =
      subst
        (λ p. build_config hosts p user opts.password opts.dc opts.local_only opts.rack ≡ some c)
        is_tls built in
    let ((verified, (name, named)), auth) =
      build_config-Secured hosts user opts.password opts.dc opts.local_only opts.rack c secure in
    (
      files,
      (verified, (name, (named, auth ∙ ap (λ u. auth_of u opts.password) is_user ∙ tls_auth opts))),
    )
