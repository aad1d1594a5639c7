-- ===== src/Convert/Preflight/Schema.antt =====
-- The checks of one keyspace (sample_app/convert_to_tablets.py, `preflight`), one function for each
-- of its paragraphs.
use Prim.Native.Nat.{Ordering}
use Prim.Native.String.{compare}
use scylla_k8s_example.Base.{
  ℕ, String, ◌<>◌, Bool, true, false, not, ◌&&◌, ◌||◌, Option, none, some,
}
use scylla_k8s_example.Base.{List, [], ◌∷◌, ◌++◌, if◌then◌else◌, string_eq, ◌==◌, length, is_empty}
use scylla_k8s_example.Base.{any, all, keep, contains}
use scylla_k8s_example.Base.Text.{join, show_nat, starts_with, ends_with, has_text}
use scylla_k8s_example.Base.Dict.{Dict, values, lookup, lookup_or, erase}
use scylla_k8s_example.Json.{str, obj, Fields, end, field, show}
use scylla_k8s_example.Exec.{crash, queried, Exec, pure, raise, ◌>>=◌, ◌>>◌, maybe, for_each, say}
use scylla_k8s_example.Convert.Nodes.{Node}
use scylla_k8s_example.Convert.Blob.{Bytes, same_bytes, decode_extension, find}

-- What the driver's metadata holds of a table and of a keyspace.
pub record Table : Type 0 where
  pub indexes : List String
  pub column_types : List String
  pub compaction : Option (Dict String)
  pub extensions : Option (Dict Bytes)

pub record Keyspace : Type 0 where
  pub tables : Dict Table
  pub views : List String

unfoldable pub insert_text : String → List String → List String
insert_text s [] = s ∷ []
insert_text s (t ∷ l) = elim (compare s t) [ Ordering.gt ↦ t ∷ insert_text s l | _ ↦ s ∷ t ∷ l ]

-- `sorted(l)`
unfoldable pub sort_texts : List String → List String
unfolding insert_text
sort_texts [] = []
sort_texts (s ∷ l) = insert_text s (sort_texts l)

-- The distinct racks of one datacenter: `len(racks_per_dc.get(dc, ()))`.
unfoldable pub racks_in : String → List Node → List String → List String
racks_in dc [] seen = seen
racks_in dc (n ∷ nodes) seen =
    racks_in dc nodes (if n.dc == dc && not (contains n.rack seen) then n.rack ∷ seen else seen)

unfoldable pub rack_count : String → List Node → ℕ
unfolding racks_in
rack_count dc nodes = length (racks_in dc nodes [])

abbrev pub answered : Option (Option (Dict String)) → Exec (Option (Dict String))
answered none = raise (crash "the driver raised")
answered (some row) = pure row

-- `session.execute("SELECT replication ...").one()`
unfoldable pub query_replication : String → Exec (Option (Dict String))
unfolding pure raise
query_replication keyspace e s =
    answered (e.replication s.trace keyspace) e (record s { trace = queried keyspace ∷ s.trace })

unfoldable pub replication_fields : Dict String → Fields
replication_fields [] = end
replication_fields ((k, v) ∷ d) = field k (str v) (replication_fields d)

abbrev pub rf_valid : List Node → String × String → Bool
rf_valid nodes (dc, rf) = rf == show_nat (rack_count dc nodes)

unfoldable pub report_rf : List Node → Bool → String × String → Exec Unit
report_rf nodes enforced (dc, rf) =
    let racks = show_nat (rack_count dc nodes) in
    if rf == racks
    then pure tt
    else if enforced
    then (do
      say (
          "  " <> dc <> ": RF=" <> rf <> " but the cluster has " <> racks
          <> " rack(s) - RF must equal")
      say "    the rack count, or nodes will fail to START once the keyspace"
      say "    uses tablets (enforce_rack_list is on)")
    else (do
      say (
          "  warning: " <> dc <> " has RF=" <> rf <> " but the cluster has " <> racks
          <> " rack(s), so")
      say "  the keyspace will not be RF-rack-valid. enforce_rack_list is off,"
      say "  so nodes will still start, but keep RF = rack count for keyspaces"
      say "  with views or indexes")

unfoldable pub check_replication : List Node → Bool → Dict String → Exec Bool
unfolding report_rf replication_fields
check_replication nodes enforced replication =
    let factors = erase "class" replication in
    if has_text "NetworkTopologyStrategy" (lookup_or "" "class" replication)
    then (do
      for_each factors (report_rf nodes enforced)
      pure (not enforced || all (rf_valid nodes) factors))
    else (do
      say (
          "  replication must be NetworkTopologyStrategy, got: "
          <> show (obj (replication_fields factors)))
      pure false)

-- All indexes of the tables.
unfoldable pub table_indexes : List Table → List String
table_indexes [] = []
table_indexes (t ∷ l) = t.indexes ++ table_indexes l

unfoldable pub name_line : String → Exec Unit
name_line name = say ("    " <> name)

-- Views and indexes only warn. The view behind an index is not listed again.
unfoldable pub warn_views : Keyspace → Exec Unit
unfolding table_indexes name_line
warn_views meta =
    let indexes = sort_texts (table_indexes (values meta.tables)) in
    let views =
      sort_texts
        (keep (λ view. not (any (λ index. view == index <> "_index") indexes)) meta.views) in
    if is_empty views && is_empty indexes then pure tt else (do
      say "  warning: keyspace has materialized views / secondary indexes:"
      for_each (views ++ indexes) name_line
      say "  the docs list these as unsupported, though they do migrate")

abbrev pub is_counter : Table → Bool
is_counter t = any (λ c. c == "counter") t.column_types

-- The names of the tables that a test accepts, in the order of the schema.
unfoldable pub tables_where : (String → Table → Bool) → Dict Table → List String
tables_where p [] = []
tables_where p ((name, t) ∷ d) =
    let rest = tables_where p d in if p name t then name ∷ rest else rest

unfoldable pub check_counters : Bool → Keyspace → Exec Bool
unfolding name_line
check_counters counters_ok meta =
    let counters = sort_texts (tables_where (λ name t. is_counter t) meta.tables) in
    if is_empty counters
    then pure true
    else if counters_ok
    then (do
      say "  warning: keyspace has counter tables:"
      for_each counters name_line
      say "  the docs call counters unsupported, but on 2026.3+ they"
      say "  migrate with exact values; correctness under concurrent"
      say "  increments is unverified"
      pure true)
    else (do
      say "  counter tables cannot convert on this version - migrating"
      say "  counters needs ScyllaDB 2026.3 or newer:"
      for_each counters name_line
      pure false)

abbrev pub is_cdc_log : String → Bool
is_cdc_log name = ends_with name "_scylla_cdc_log"

unfoldable pub check_cdc : Keyspace → Exec Bool
unfolding name_line
check_cdc meta =
    let cdc = sort_texts (tables_where (λ name t. is_cdc_log name) meta.tables) in
    if is_empty cdc then pure true else (do
      say "  CDC-enabled tables cannot be migrated - the migration would"
      say "  succeed, then the BASE table would reject every write (no CDC"
      say "  stream metadata), so its log stops recording operations:"
      for_each cdc name_line
      pure false)

abbrev pub or_none : {V : Type 0} → Option (Dict V) → Dict V
or_none none = []
or_none (some d) = d

abbrev pub is_ics : Table → Bool
is_ics t = has_text "IncrementalCompactionStrategy" (lookup_or "" "class" (or_none t.compaction))

-- The bytes of "mode" and "repair".
abbrev pub mode_bytes : Bytes
mode_bytes = b'm' ∷ b'o' ∷ b'd' ∷ b'e' ∷ []

abbrev pub repair_bytes : Bytes
repair_bytes = b'r' ∷ b'e' ∷ b'p' ∷ b'a' ∷ b'i' ∷ b'r' ∷ []

abbrev pub repairs_tombstones : Table → Bool
repairs_tombstones t =
    elim (find mode_bytes (decode_extension (lookup_or [] "tombstone_gc" (or_none t.extensions)))) [
      | none ↦ false
      | some mode ↦ same_bytes mode repair_bytes
    ]

unfoldable pub check_compaction : Keyspace → Exec Bool
unfolding name_line
check_compaction meta =
    let non_ics = tables_where (λ name t. not (is_ics t)) meta.tables in
    if is_empty non_ics then pure true else (do
      say "  only Incremental Compaction Strategy tables can be migrated, these are not ICS:"
      for_each (sort_texts non_ics) name_line
      pure false)

unfoldable pub warn_tombstones : Keyspace → Exec Unit
warn_tombstones meta =
    let no_repair_gc = tables_where (λ name t. not (repairs_tombstones t)) meta.tables in
    if is_empty no_repair_gc
    then pure tt
    else say
        ("  warning: tombstone_gc mode is not 'repair' on: " <> join " " (sort_texts no_repair_gc))

-- What stands behind the check that the keyspace has tables.
unfoldable pub check_tables : String → Keyspace → Bool → Exec Bool
check_tables keyspace meta so_far =
    if is_empty meta.tables
    then (do say ("  keyspace " <> keyspace <> " has no tables"); pure false)
    else (do
      no_cdc ← check_cdc meta
      all_ics ← check_compaction meta
      warn_tombstones meta
      pure (so_far && (no_cdc && all_ics)))

unfoldable pub check_keyspace : List Node → String → Bool → Bool → Keyspace → Exec Bool
unfolding query_replication
check_keyspace nodes keyspace counters_ok enforced meta = do
  row ← query_replication keyspace
  replicated ← check_replication nodes enforced (or_none row)
  warn_views meta
  counted ← check_counters counters_ok meta
  check_tables keyspace meta (replicated && counted)

unfoldable pub preflight : Dict Keyspace → List Node → String → Bool → Bool → Exec Bool
unfolding check_keyspace
preflight schema nodes keyspace counters_ok enforced =
    if starts_with keyspace "alternator_"
    then (do
      say ("  " <> keyspace <> " looks like an Alternator keyspace, which cannot be migrated")
      pure false)
    else maybe (lookup keyspace schema)
        (do say ("  keyspace " <> keyspace <> " does not exist or is not readable"); pure false)
        (check_keyspace nodes keyspace counters_ok enforced)
