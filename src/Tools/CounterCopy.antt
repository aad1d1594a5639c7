-- ===== src/Tools/CounterCopy.antt =====
-- The copy of a counter table (sample_app/copy_counter_table_vnodes_to_tablets.py). A statement is
-- written with its constants put in, and counters are not negative.
pub mod Copied
use scylla_k8s_example.Base.{ℕ, String, ◌<>◌, Option, none, some, List, [], ◌∷◌}
use scylla_k8s_example.Base.Text.{pad_right}
use scylla_k8s_example.Script.{Value, num, text, plain, Script, raise, maybe, ◌>>=◌, ◌>>◌, print}
use scylla_k8s_example.Script.{connect_to, execute, run, close_cluster, for_each}
use scylla_k8s_example.Tools.Format.{shown, null_error}

abbrev pub create_source : String
create_source =
    "\n        CREATE KEYSPACE IF NOT EXISTS vnodes_ks\n        WITH replication = {'class': 'NetworkTopologyStrategy', 'replication_factor': 3}\n        AND tablets = {'enabled': false}\n    "

abbrev pub create_source_table : String
create_source_table =
    "\n        CREATE TABLE IF NOT EXISTS vnodes_ks.page_views (\n            page_id text PRIMARY KEY,\n            views counter\n        )\n    "

abbrev pub seed_cql : String
seed_cql = "UPDATE vnodes_ks.page_views SET views = views + %s WHERE page_id = %s"

abbrev pub create_destination : String
create_destination =
    "\n        CREATE KEYSPACE IF NOT EXISTS tablets_ks\n        WITH replication = {'class': 'NetworkTopologyStrategy', 'replication_factor': 3}\n        AND tablets = {'enabled': true}\n    "

abbrev pub create_destination_table : String
create_destination_table =
    "\n        CREATE TABLE IF NOT EXISTS tablets_ks.page_views (\n            page_id text PRIMARY KEY,\n            views counter\n        )\n    "

abbrev pub select_cql : String → String
select_cql keyspace = "SELECT page_id, views FROM " <> keyspace <> ".page_views"

abbrev pub copy_cql : String
copy_cql = "UPDATE tablets_ks.page_views SET views = views + %s WHERE page_id = %s"

-- The pages and their views.
abbrev pub sample_data : List (String × ℕ)
sample_data = ("home", 42) ∷ ("pricing", 17) ∷ ("docs", 8) ∷ ("blog", 5) ∷ ("signup", 23) ∷ []

-- `f"  {row.page_id:10s} {row.views}"`
abbrev pub table_line : List Value → Option String
table_line (text id ∷ views ∷ row) = some ("  " <> pad_right 10 id <> " " <> shown views)
table_line row = none

unfoldable pub print_row : List Value → Script Unit
print_row row = maybe (table_line row) (raise null_error) (λ line. print line)

unfoldable pub print_table : String → Script Unit
print_table keyspace = do
  print ("\n" <> keyspace <> ".page_views:")
  execute (select_cql keyspace) [] >>= λ rows. for_each rows print_row

abbrev pub seed_page : String × ℕ → Script Unit
seed_page (page_id, views) = run seed_cql (num views ∷ text page_id ∷ [])

unfoldable pub make_source : Script Unit
make_source = do
  run create_source []
  run create_source_table []
  for_each sample_data seed_page
  print_table "vnodes_ks"

unfoldable pub make_destination : Script Unit
make_destination = do run create_destination []; run create_destination_table []

-- `row.views` and `row.page_id`, bound for the increment.
abbrev pub copy_values : List Value → Option (List Value)
copy_values (page_id ∷ views ∷ row) = some (views ∷ page_id ∷ [])
copy_values row = none

unfoldable pub copy_row : List Value → Script Unit
copy_row row =
    maybe (copy_values row) (raise "'Row' object has no attribute 'views'")
      (λ values. run copy_cql values)

unfoldable pub copy_rows : Script Unit
copy_rows = do rows ← execute (select_cql "vnodes_ks") []; for_each rows copy_row

unfoldable pub main : Script Unit
main = do
  connect_to (plain ("scylla-client" ∷ []) "cassandra" "cassandra")
  make_source
  make_destination
  copy_rows
  print_table "tablets_ks"
  close_cluster
