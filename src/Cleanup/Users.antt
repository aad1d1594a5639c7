-- ===== src/Cleanup/Users.antt =====
-- The cleanup of one range of users (sample_app/alternator-client/cleanup_userid_mt.py,
-- `cleanup_range`). The database is a parameter; a statement of it may raise.
use scylla_k8s_example.Base.{
  ℕ, ◌+◌, ◌≡◌, refl, sym, ap, subst, ◌∙◌, String, Bool, true, false, List, [], ◌∷◌, ◌++◌, Option,
  none, some,
}
use scylla_k8s_example.Base.{
  All, All-map, Bool-cases, inl, inr, ◌⊎◌, if◌then◌else◌, nat_eq, ◌==◌, nat_beq_iff,
}
use scylla_k8s_example.Exec.Steps.{Some, Some-append, Some-last}
use scylla_k8s_example.Cleanup.Rows.{
  Entry, latest, delete_before, Only, Thinned, Thinned-refl, Thinned-delete_before,
  delete_before-Only, latest_zero-Only,
}

-- What the database does with the two statements for a user, on the rows that it has:
-- `SELECT MAX("LastUpdated")`, where `none` is an exception and 0 stands for no time, and
-- `DELETE ... "LastUpdated" < ?`, with whether it returned and the rows after it.
pub record Database : Type 0 where
  pub max_ts : List Entry → String → Option ℕ
  pub delete : List Entry → String → ℕ → Bool × List Entry

-- What ScyllaDB promises: an answer is the latest time, a deletion that returned has been done, and
-- one that raised has been done or has not.
pub record Promises (db : Database) : Type 0 where
  pub answered :
      (rows : List Entry) (user : String) (ts : ℕ)
      → db.max_ts rows user ≡ some ts
      → ts ≡ latest user rows
  pub deleted :
      (rows : List Entry) (user : String) (ts : ℕ)
      → (db.delete rows user ts).0 ≡ true
      → (db.delete rows user ts).1 ≡ delete_before user ts rows
  pub in_doubt :
      (rows : List Entry) (user : String) (ts : ℕ)
      → (db.delete rows user ts).0 ≡ false
      → ((db.delete rows user ts).1 ≡ rows)
        ⊎ ((db.delete rows user ts).1 ≡ delete_before user ts rows)

-- `total_deleted`, the rows of the table, and the users of the warnings that were printed.
pub record Progress : Type 0 where
  pub total_deleted : ℕ
  pub rows : List Entry
  pub warned : List String

-- The `except`.
abbrev warn : String → Progress → Progress
warn user p = record p { warned = p.warned ++ (user ∷ []) }

abbrev after_delete : String → Progress → Bool × List Entry → Progress
after_delete user p (returned, rows) =
    if returned
    then record p { total_deleted = p.total_deleted + 1; rows = rows }
    else warn user (record p { rows = rows })

abbrev after_max : Database → String → Progress → Option ℕ → Progress
after_max db user p none = warn user p
after_max db user p (some max_ts) =
    if max_ts == 0 then p else after_delete user p (db.delete p.rows user max_ts)

-- The body of the loop, for one user of the range.
unfoldable pub cleanup_user : Database → String → Progress → Progress
cleanup_user db user p = after_max db user p (db.max_ts p.rows user)

-- The loop over the users of a range.
unfoldable pub cleanup : Database → List String → Progress → Progress
cleanup db [] p = p
cleanup db (user ∷ users) p = cleanup db users (cleanup_user db user p)

-- The user was warned of.
abbrev pub Warned : String → Progress → Type 0
Warned user p = Some (λ u. u ≡ user) p.warned

-- Of the user's rows at the start only the latest are left.
abbrev pub Cleaned : List Entry → String → Progress → Type 0
Cleaned rows user p = Warned user p ⊎ All (Only user (latest user rows)) p.rows

abbrev Later : Progress → Progress → Type 1
Later p q = Thinned p.rows q.rows × ((user : String) → Warned user p → Warned user q)

abbrev Done : String → Progress → Progress → Type 1
Done user p q = Cleaned p.rows user q × Later p q

module _ (db : Database) (k : Promises db) where
  Done-warn :
      (user : String) (p : Progress) (rows : List Entry)
      → Thinned p.rows rows
      → Done user p (warn user (record p { rows = rows }))
  Done-warn user p rows thin =
      (inl (Some-last user p.warned), (thin, λ u. Some-append p.warned (user ∷ [])))

  Done-delete :
      (user : String) (p : Progress) (x : Bool × List Entry)
      → (x.0 ≡ true → x.1 ≡ delete_before user (latest user p.rows) p.rows)
      → (x.0 ≡ false → (x.1 ≡ p.rows) ⊎ (x.1 ≡ delete_before user (latest user p.rows) p.rows))
      → Done user p (after_delete user p x)
  Done-delete user p (true, rows) sure unsure =
      subst (λ l. Done user p (record p { total_deleted = p.total_deleted + 1; rows = l }))
        (sym (sure refl))
        (inr (delete_before-Only user p.rows), (Thinned-delete_before user p.rows, λ u w. w))
  Done-delete user p (false, rows) sure unsure = elim (unsure refl) [
    | inl same ↦ Done-warn user p rows (subst (Thinned p.rows) (sym same) (Thinned-refl p.rows))
    | inr gone ↦
        Done-warn user p rows
          (subst (Thinned p.rows) (sym gone) (Thinned-delete_before user p.rows))
  ]

  Done-max :
      (user : String) (p : Progress) (o : Option ℕ)
      → ((ts : ℕ) → o ≡ some ts → ts ≡ latest user p.rows)
      → Done user p (after_max db user p o)
  Done-max user p none right = Done-warn user p p.rows (Thinned-refl p.rows)
  Done-max user p (some ts) right =
      let time = right ts refl in
      elim (Bool-cases (ts == 0)) [
        | inl e ↦
            let no_time = sym time ∙ (nat_beq_iff ts 0).0 e in
            rw e (inr (latest_zero-Only user p.rows no_time), (Thinned-refl p.rows, λ u w. w))
        | inr e ↦
            let x = db.delete p.rows user ts in
            rw e (
              Done-delete user p x
                (λ r. k.deleted p.rows user ts r ∙ ap (λ t. delete_before user t p.rows) time)
                (λ r.
                  subst (λ t. (x.1 ≡ p.rows) ⊎ (x.1 ≡ delete_before user t p.rows)) time
                    (k.in_doubt p.rows user ts r)))
      ]

  Done-cleanup :
      (users : List String) (p : Progress)
      → All (λ u. Cleaned p.rows u (cleanup db users p)) users × Later p (cleanup db users p)
  unfolding cleanup cleanup_user
  Done-cleanup [] p = (tt, (Thinned-refl p.rows, λ u w. w))
  Done-cleanup (user ∷ users) p =
      let q = cleanup_user db user p in
      let (clean, ((same, kept), warned)) =
        Done-max user p (db.max_ts p.rows user) (k.answered p.rows user) in
      let (cleans, ((sames, kepts), warneds)) = Done-cleanup users q in
      (
        (
          elim clean [ inl w ↦ inl (warneds user w) | inr a ↦ inr (kepts _ a) ],
          All-map users
              (λ u c.
                subst
                  (λ m. Warned u (cleanup db users q) ⊎ All (Only u m) (cleanup db users q).rows)
                  (same u) c)
              cleans,
        ),
        ((λ u. sames u ∙ same u, λ P h. kepts P (kept P h)), λ u w. warneds u (warned u w)),
      )

  -- If the database keeps its promises, then after the cleanup of a range each of its users has been
  -- warned of, or each row that is left of the user has the latest time that the user had before. No
  -- user's latest time has changed, and what holds of all rows before holds of those that are left.
  pub cleanup-Cleaned :
      (users : List String) (p : Progress) (user : String) (P : Entry → Type 0)
      → All P p.rows
      → All (λ u. Cleaned p.rows u (cleanup db users p)) users
        × ((latest user (cleanup db users p).rows ≡ latest user p.rows)
            × All P (cleanup db users p).rows)
  cleanup-Cleaned users p user P h =
      let (cleans, ((same, kept), _)) = Done-cleanup users p in (cleans, (same user, kept P h))
