-- ===== src/Convert/Preflight/Cluster.antt =====
-- Checks of the whole cluster (sample_app/convert_to_tablets.py, `scylla_version`,
-- `counter_migration_supported`, `rack_list_enforced`, `check_cluster_up`).
use scylla_k8s_example.Base.{
  ℕ, String, ◌<>◌, Bool, true, false, not, ◌&&◌, ◌||◌, Option, none, some,
}
use scylla_k8s_example.Base.{
  List, [], ◌∷◌, ◌++◌, if◌then◌else◌, string_eq, nat_eq, ◌==◌, length, is_empty,
}
use scylla_k8s_example.Base.Text.{
  ℤ, strip, strip_by, read_int, ge_nat, eq_nat, split, join, show_nat, lower_codes,
}
use scylla_k8s_example.Json.{Json, bool, show, truthy}
use scylla_k8s_example.Exec.{
  release_version, enforce_rack_list, endpoint_down, endpoint_live, nodes_in,
}
use scylla_k8s_example.Exec.{
  Exec, pure, ◌>>=◌, ◌>>◌, try_catch, api_failure, for_each, say, message_of,
}
use scylla_k8s_example.Exec.Values.{iterate, or_list, size, as_text}
use scylla_k8s_example.Convert.Api.{api_get}
use scylla_k8s_example.Convert.Nodes.{Node}
use scylla_k8s_example.Convert.Status.{host_of}

-- `int(parts[0]), int(parts[1])`
unfoldable pub version_of : List String → Option (ℤ × ℤ)
version_of (major ∷ minor ∷ parts) = elim (read_int (strip major)) [
  | none ↦ none
  | some a ↦ elim (read_int (strip minor)) [ none ↦ none | some b ↦ some (a, b) ]
]
version_of _ = none

unfoldable pub scylla_version : Node → Exec (Option (ℤ × ℤ))
scylla_version n =
    try_catch api_failure
      (do
        host ← host_of n
        version ← api_get host release_version
        pure (version_of (split b'.' (show version))))
      (λ _. pure none)

-- The first release whose counters are trusted to migrate is 2026.3.
unfoldable pub migrates_counters : Option (ℤ × ℤ) → Bool
migrates_counters none = false
migrates_counters (some (major, minor)) = ge_nat major 2027 || (eq_nat major 2026 && ge_nat minor 3)

unfoldable pub counter_migration_supported : Node → Exec Bool
counter_migration_supported control =
    scylla_version control >>= λ version. pure (migrates_counters version)

-- Whether a list of code points is the text "false".
unfoldable pub is_false_word : List ℕ → Bool
is_false_word (a ∷ b ∷ c ∷ d ∷ f ∷ []) =
    a == b'f' && (b == b'a' && (c == b'l' && (d == b's' && f == b'e')))
is_false_word _ = false

-- What a setting reads as: anything but false, in whatever case and quotes.
unfoldable pub reads_as_on : Json → Bool
unfolding is_false_word
reads_as_on (bool b) = b
reads_as_on value =
    not (is_false_word (lower_codes (strip_by (λ c. c == b'"' || c == b' ') (show value))))

unfoldable pub rack_list_enforced : Node → Exec Bool
rack_list_enforced control =
    try_catch api_failure
      (do host ← host_of control; value ← api_get host enforce_rack_list; pure (reads_as_on value))
      (λ _. pure true)

-- The nodes that are joining, leaving or moving, with what they do.
unfoldable pub tagged : String → List Json → List (String × Json)
tagged what [] = []
tagged what (a ∷ l) = (what, a) ∷ tagged what l

unfoldable pub transient_nodes : Option String → List String → Exec (List (String × Json))
unfolding tagged
transient_nodes host [] = pure []
transient_nodes host (what ∷ rest) = do
  answer ← api_get host (nodes_in what)
  l ← iterate (or_list answer)
  more ← transient_nodes host rest
  pure (tagged what l ++ more)

pub record View : Type 0 where
  pub down : Json
  pub live : Json
  pub transient : List (String × Json)

-- The view of the cluster, or the message of the failure to read it.
pub data Reading : Type 0 where
  seen : View → Reading
  unreadable : String → Reading

unfoldable pub read_cluster : Node → Exec Reading
unfolding transient_nodes
read_cluster control =
    try_catch api_failure
      (do
        host ← host_of control
        down ← api_get host endpoint_down
        live ← api_get host endpoint_live
        transient ← transient_nodes host ("joining" ∷ "leaving" ∷ "moving" ∷ [])
        pure (seen (record { down = down; live = live; transient = transient })))
      (λ x. pure (unreadable (message_of x)))

unfoldable pub texts : List Json → Exec (List String)
texts [] = pure []
texts (x ∷ l) = do t ← as_text x; rest ← texts l; pure (t ∷ rest)

unfoldable pub report_down : Json → Exec Unit
unfolding texts
report_down down =
    if truthy down
    then (do l ← iterate down; names ← texts l; say ("  nodes not up: " <> join ", " names))
    else pure tt

unfoldable pub report_count : ℕ → ℕ → Exec Unit
report_count up all =
    if up == all
    then pure tt
    else say
        ("  " <> show_nat up <> " node(s) up but " <> show_nat all <> " node(s) in the cluster")

unfoldable pub report_transient : String × Json → Exec Unit
report_transient (what, address) =
    say ("  node " <> show address <> " is " <> what <> " - finish the topology change first")

unfoldable pub judge_view : ℕ → View → Exec Bool
unfolding report_down report_count report_transient
judge_view nodes v = do
  report_down v.down
  up ← size v.live
  report_count up nodes
  for_each v.transient report_transient
  pure (not (truthy v.down) && (up == nodes && is_empty v.transient))

unfoldable pub judge : ℕ → Reading → Exec Bool
unfolding judge_view
judge nodes (seen v) = judge_view nodes v
judge nodes (unreadable message) = do
  say ("  could not read the cluster state: " <> message)
  pure false

unfoldable pub check_cluster_up : Node → List Node → Exec Bool
unfolding judge
check_cluster_up control nodes = read_cluster control >>= judge (length nodes)
