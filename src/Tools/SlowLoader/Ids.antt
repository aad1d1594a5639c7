-- ===== src/Tools/SlowLoader/Ids.antt =====
-- The rows of the slow loader, beside those of the loader (sample_app/slow_loader.py, `insert_data`).
use mathlib.Core.List.{append-nil}
use scylla_k8s_example.Base.{
  ℕ, zero, suc, ◌%◌, ◌≡◌, refl, sym, subst, ◌∙◌, String, some, List, [], ◌∷◌, ◌++◌,
}
use scylla_k8s_example.Base.{nat_eq, ◌==◌, and_then-inverse, some_cancel}
use scylla_k8s_example.Connection.{Files, auth_line}
use scylla_k8s_example.Script.{Value, num, text}
use scylla_k8s_example.Script.Sends.{
  View, Sends, Sends-pure, Sends-raise, Sends-bind, Sends-log, Sends-now, Sends-run, Sends-prepare,
  Sends-maybe, Sends-if, silent_rules,
}
use scylla_k8s_example.Script.Session.{Sends-build_session, Sends-resolved}
use scylla_k8s_example.Connection
use scylla_k8s_example.Loader.Ranges.{ids_from}
use scylla_k8s_example.Loader.Row.{Row, generate_row}
use scylla_k8s_example.Loader.Main.{bound}
use scylla_k8s_example.Tools.SlowLoader.{
  Options, Generators, column, columns, row_values, log_count, insert_rows, insert_data, start,
  load_slowly,
}

-- The number of the row that a statement inserts.
abbrev pub id_of : View ℕ
id_of s (b ∷ num id ∷ values) = id ∷ []
id_of s values = []

Sends-log_count : (i : ℕ) (after : String) → Sends id_of (log_count i after) []
Sends-log_count i after = Sends-bind id_of (Sends-now id_of) (λ t. Sends-log id_of _)

module _ (g : Generators) (buckets : ℕ) (cql : String) where
  Sends-insert_rows : (n i : ℕ) → Sends id_of (insert_rows g buckets cql n i) (ids_from (suc i) n)
  unfolding insert_rows ids_from
  Sends-insert_rows zero i = Sends-pure id_of i
  Sends-insert_rows (suc n) i = Sends-bind id_of (Sends-now id_of) λ t.
      Sends-maybe id_of (columns g i 0 5) (Sends-raise id_of _ _) λ v.
        Sends-bind id_of
          (Sends-if id_of (i % 1000 == 0) (Sends-log_count i ":") (Sends-pure id_of tt))
          λ _. Sends-bind id_of (Sends-run id_of cql _) λ _. Sends-insert_rows n (suc i)

Sends-insert_data :
    (g : Generators) (keyspace : String) (row_count : ℕ) (table : String) (buckets : ℕ)
    → Sends id_of (insert_data g keyspace row_count table buckets) (ids_from 1 row_count)
unfolding insert_data
Sends-insert_data g keyspace row_count table buckets =
    let line = λ (text : String). Sends-log id_of (Connection.info text) in
    Sends-bind id_of (line _) λ _.
      Sends-bind id_of (Sends-bind id_of (Sends-now id_of) (λ t. line _)) λ _.
        Sends-bind id_of (Sends-run id_of _ []) λ _. Sends-bind id_of (Sends-run id_of _ []) λ _.
          Sends-bind id_of (line _) λ _. Sends-bind id_of (Sends-prepare id_of _) λ _.
            subst (Sends id_of _) (append-nil (ids_from 1 row_count)) (
              Sends-bind id_of (Sends-insert_rows g buckets _ row_count 0)
                (λ i. Sends-log_count i ""))

Sends-start :
    (opts : Options) (hosts : List String) (port username : String)
    → Sends id_of (start opts hosts port username) []
unfolding start
Sends-start opts hosts port username =
    let drop = λ (cql : String). Sends-run id_of cql [] in
    search (silent_rules, Sends-build_session, drop) depth 16

-- Of the rows that the slow loader inserts, the numbers are 1 to the number asked for, each once and
-- in order, until it is done or fails.
pub load_slowly-Sends :
    (g : Generators) (opts : Options) (files : Files)
    → Sends id_of (load_slowly g opts files) (ids_from 1 opts.row_count)
unfolding load_slowly
load_slowly-Sends g opts files =
    let line = λ (text : String). Sends-log id_of (Connection.info text) in
    Sends-bind id_of (Sends-resolved id_of opts.connection files) λ p.
      Sends-bind id_of (line _) λ _. Sends-bind id_of (line _) λ _. Sends-bind id_of (line _) λ _.
        Sends-bind id_of (line _) λ _. Sends-bind id_of (Sends-start opts _ _ _) λ _.
          Sends-bind id_of (line _) λ _.
            subst (Sends id_of _) (append-nil (ids_from 1 opts.row_count)) (
              Sends-bind id_of (Sends-insert_data g opts.keyspace opts.row_count opts.table _)
                λ _. search silent_rules depth 12)

-- Where the loader generates a row from the draws and the sentences of the first column, the slow
-- loader binds the same values, then the messages of the four columns after the first, and last the
-- timestamp.
pub row_values-generate_row :
    (g : Generators) (i buckets timestamp : ℕ) {r : Row} {v : List Value}
    → generate_row (record (g.draws i) { sentence = g.sentence i 0 }) (suc i) buckets ≡ some r
    → columns g i 0 5 ≡ some v
    → (others : List Value) × ((columns g i 1 4 ≡ some others)
        × (row_values (g.draws i) (suc i) buckets v timestamp
            ≡ bound r ++ (others ++ (num timestamp ∷ []))))
unfolding generate_row columns
row_values-generate_row g i buckets timestamp {r} {v} made filled =
    let (m, (first, row)) = and_then-inverse (column g i 0) _ made in
    let (m', (again, next)) = and_then-inverse (column g i 0) _ filled in
    let (l, (others, all)) = and_then-inverse (columns g i 1 4) _ next in
    let one : m ≡ m' = some_cancel (sym first ∙ again) in
    let same_row = some_cancel row in
    let same_columns = some_cancel all in
    (
      l,
      (
        others,
        subst
            (λ w.
              row_values (g.draws i) (suc i) buckets w timestamp
              ≡ bound r ++ (l ++ (num timestamp ∷ [])))
            same_columns
            (subst
              (λ u.
                row_values (g.draws i) (suc i) buckets (text m' ∷ l) timestamp
                ≡ bound u ++ (l ++ (num timestamp ∷ [])))
              same_row (rw one refl)),
      ),
    )
