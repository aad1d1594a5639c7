-- ===== src/Tools/CounterCopy/Copied.antt =====
-- What the copy leaves in the destination (sample_app/copy_counter_table_vnodes_to_tablets.py, `main`).
use mathlib.Core.List.{append-nil}
use scylla_k8s_example.Base.{
  ℕ, ◌+◌, ◌≡◌, refl, subst, ap, ◌∙◌, String, Option, none, some, List, [], ◌∷◌, ◌++◌, map, arith,
  Bool-cases, inl, inr,
}
use scylla_k8s_example.Base.{if◌then◌else◌, string_eq, ◌==◌}
use scylla_k8s_example.Script.{
  Value, num, text, Script, World, History, ok, rows, execute, run, for_each, close_cluster, maybe,
  raise, ◌>>=◌, connect_to,
}
use scylla_k8s_example.Script.Sends.{
  View, seen, Sends, flat, Sends-raise, Sends-print, Sends-run, Sends-execute, Sends-maybe,
  Sends-for_each, Ran, Sends-connect_to, Sends-close_cluster, silent_bind, Sends-silent,
}
use scylla_k8s_example.Script.Steps.{bind-ok, execute-ok}
use scylla_k8s_example.Tools.CounterCopy.{
  copy_cql, select_cql, sample_data, table_line, print_row, print_table, make_source,
  make_destination, copy_values, copy_row, copy_rows, main,
}

-- An increment of a counter of the destination.
abbrev pub increment : View (String × ℕ)
increment s (num n ∷ text id ∷ []) = if s == copy_cql then (id, n) ∷ [] else []
increment s values = []

abbrev pub Counters : Type 0
Counters = String → ℕ

-- What increments do to counters.
abbrev pub replay : List (String × ℕ) → Counters → Counters
replay [] c = c
replay ((id, n) ∷ l) c = replay l (λ j. if j == id then c j + n else c j)

-- A row of the table, and the views that a table has for a page.
abbrev pub row_of : String × ℕ → List Value
row_of (id, n) = text id ∷ num n ∷ []

abbrev pub views_of : String → List (String × ℕ) → ℕ
views_of page [] = 0
views_of page ((id, n) ∷ t) = (if page == id then n else 0) + views_of page t

abbrev increment_of : Option (List Value) → List (String × ℕ)
increment_of none = []
increment_of (some values) = increment copy_cql values

abbrev row_increment : List Value → List (String × ℕ)
row_increment row = increment_of (copy_values row)

Sends-print_row : (row : List Value) → Sends increment (print_row row) []
unfolding print_row
Sends-print_row row =
    Sends-maybe increment (table_line row) (Sends-raise increment _ [])
      (λ line. Sends-print increment _)

Sends-print_table : (keyspace : String) → Sends increment (print_table keyspace) []
unfolding print_table
Sends-print_table keyspace = silent_bind increment (Sends-print increment _) λ _.
    silent_bind increment (Sends-execute increment (select_cql keyspace) [])
      λ l. Sends-silent increment l Sends-print_row

Sends-make_source : Sends increment make_source []
unfolding make_source
Sends-make_source = silent_bind increment (Sends-run increment _ []) λ _.
    silent_bind increment (Sends-run increment _ []) λ _.
      silent_bind increment
        (Sends-silent increment sample_data (λ p. Sends-run increment _ (num p.1 ∷ text p.0 ∷ [])))
        (λ _. Sends-print_table "vnodes_ks")

Sends-make_destination : Sends increment make_destination []
unfolding make_destination
Sends-make_destination =
    silent_bind increment (Sends-run increment _ []) (λ _. Sends-run increment _ [])

copies :
    (o : Option (List Value)) (m : String)
    → Sends increment (maybe o (raise m) (λ values. run copy_cql values)) (increment_of o)
unfolding maybe
copies none m = Sends-raise increment m []
copies (some values) m = Sends-run increment copy_cql values

Sends-copy_row : (row : List Value) → Sends increment (copy_row row) (row_increment row)
unfolding copy_row
Sends-copy_row row = copies (copy_values row) _

rows_increments : (table : List (String × ℕ)) → flat row_increment (map row_of table) ≡ table
rows_increments [] = refl
rows_increments ((id, n) ∷ table) = ap (λ l. (id, n) ∷ l) (rows_increments table)

replay-views_of :
    (table : List (String × ℕ)) (c : Counters) (page : String)
    → replay table c page ≡ c page + views_of page table
replay-views_of [] c page = omega arith
replay-views_of ((id, n) ∷ table) c page =
    let ih = replay-views_of table (λ j. if j == id then c j + n else c j) page in
    elim (Bool-cases (page == id)) [
      | inl same ↦ (let ih' = rw same at ih in rw same (omega (arith, ih')))
      | inr other ↦ (let ih' = rw other at ih in rw other (omega (arith, ih')))
    ]

-- What a run adds to what is seen, if it returns.
seen_by :
    (m : Script Unit) (l : List (String × ℕ)) (w : World) (h : History) {h' : History} {u : Unit}
    → Sends increment m l
    → m w h ≡ (ok u, h')
    → seen increment h' ≡ seen increment h ++ l
seen_by m l w h {h'} km e =
    let (p, grown, whole) = subst (λ r. Ran increment r.0 h r.1 l) e (km.at w h) in
    grown ∙ ap (λ x. seen increment h ++ x) whole

-- A step that sends no increment, before others.
passes :
    (m k : Script Unit) (w : World) (h : History) {h' : History}
    → Sends increment m []
    → (m >>= λ _. k) w h ≡ (ok tt, h')
    → (h1 : History) × (seen increment h1 ≡ seen increment h) × (k w h1 ≡ (ok tt, h'))
passes m k w h km e =
    let (u, h1, e1, rest) = bind-ok m (λ _. k) e in
    (h1, seen_by m [] w h km e1 ∙ append-nil (seen increment h), rest)

copied_rows :
    (w : World) (h : History) {h' : History} {u : Unit}
    → copy_rows w h ≡ (ok u, h')
    → (l : List (List Value)) × (w.answer h (select_cql "vnodes_ks") [] ≡ rows l)
      × (seen increment h' ≡ seen increment h ++ flat row_increment l)
unfolding copy_rows
copied_rows w h e =
    let (l, t, asked, copied) =
      bind-ok (execute (select_cql "vnodes_ks") []) (λ r. for_each r copy_row) e in
    let read =
      subst (λ r. Ran increment r.0 h r.1 []) asked
        ((Sends-execute increment (select_cql "vnodes_ks") []).at w h) in
    let same_list =
      seen_by (for_each l copy_row) (flat row_increment l) w t
        (Sends-for_each increment l row_increment Sends-copy_row) copied in
    (
      l,
      execute-ok (select_cql "vnodes_ks") [] w h asked,
      same_list
          ∙ ap (λ x. x ++ flat row_increment l)
              (read.1 ∙ ap (λ x. seen increment h ++ x) read.2 ∙ append-nil (seen increment h)),
    )

-- If the script returns, it has read the source table for the copy. Where that read gave a page and
-- its views in each row, the increments sent to the destination change counters that had any value by
-- the views of the table: with counters at zero they become a copy, otherwise a sum.
pub main-copies :
    (w : World) {h' : History}
    → main w [] ≡ (ok tt, h')
    → (l : List (List Value)) × (t : History) × (w.answer t (select_cql "vnodes_ks") [] ≡ rows l)
      × ((table : List (String × ℕ))
          → l ≡ map row_of table
          → (c : Counters) (page : String)
          → replay (seen increment h') c page ≡ c page + views_of page table)
unfolding main seen
main-copies w {h'} e =
    let (h1, s1, n1) = passes (connect_to _) _ w [] (Sends-connect_to increment _) e in
    let (h2, s2, n2) = passes make_source _ w h1 Sends-make_source n1 in
    let (h3, s3, n3) = passes make_destination _ w h2 Sends-make_destination n2 in
    let (u4, h4, e4, n4) = bind-ok copy_rows _ n3 in
    let (h5, s5, n5) = passes (print_table _) _ w h4 (Sends-print_table _) n4 in
    let s6 = seen_by close_cluster [] w h5 (Sends-close_cluster increment) n5 in
    let (l, asked, s4) = copied_rows w h3 e4 in
    (
      l,
      h3,
      asked,
      λ table shape c page.
          let all : seen increment h' ≡ table =
            s6
            ∙ append-nil (seen increment h5)
            ∙ s5
            ∙ s4
            ∙ ap (λ x. x ++ flat row_increment l) (s3 ∙ s2 ∙ s1)
            ∙ ap (flat row_increment) shape
            ∙ rows_increments table in
          ap (λ x. replay x c page) all ∙ replay-views_of table c page,
    )
