-- ===== src/Cleanup/Rows.antt =====
-- What the two statements of `cleanup_range` (sample_app/alternator-client/cleanup_userid_mt.py) mean
-- for the rows of a table.
use scylla_k8s_example.Base.{
  ℕ, ◌≤◌, ◌≡◌, refl, sym, ap, subst, ◌∙◌, String, List, [], ◌∷◌, true, false, ◌&&◌,
}
use scylla_k8s_example.Base.{
  &&-eq-true, All, All-map, arith, Bool-cases, inl, inr, ltb, leb, leb→le, leb-false→lt, ltb→lt,
  ltb-false→le, if◌then◌else◌, string_eq, ◌==◌, str_iff,
}
use mathlib.Core.Bool.{false≢true}

-- A row's user and its `LastUpdated`.
abbrev pub Entry : Type 0
Entry = String × ℕ

abbrev pub max : ℕ → ℕ → ℕ
max a b = if ltb a b then b else a

-- `SELECT MAX("LastUpdated") ... WHERE "UserID" = ?`, with 0 for no row: both are skipped.
unfoldable pub latest : String → List Entry → ℕ
latest user [] = 0
latest user ((v, ts) ∷ rows) =
    let rest = latest user rows in if v == user then max ts rest else rest

-- `DELETE ... WHERE "UserID" = ? AND "LastUpdated" < ?`
unfoldable pub delete_before : String → ℕ → List Entry → List Entry
delete_before user ts [] = []
delete_before user ts ((v, t) ∷ rows) =
    let rest = delete_before user ts rows in if v == user && ltb t ts then rest else (v, t) ∷ rest

-- Each row of the user has the given time, if it is the latest.
abbrev pub Only : String → ℕ → Entry → Type 0
Only user m (v, ts) = v ≡ user → ts ≡ m

abbrev AtMost : String → ℕ → Entry → Type 0
AtMost user m (v, ts) = v ≡ user → ts ≤ m

abbrev AtLeast : String → ℕ → Entry → Type 0
AtLeast user m (v, ts) = v ≡ user → m ≤ ts

max-right : (a b : ℕ) → b ≤ max a b
max-right a b = ground arith

-- A row that is kept is not older than the given time.
kept-AtLeast :
    (v user : String) (t m : ℕ) → v == user ≡ true → (v == user && ltb t m) ≡ false → m ≤ t
kept-AtLeast v user t m same_user e = ltb-false→le t m (sym (ap (λ b. b && ltb t m) same_user) ∙ e)

latest_self :
    (user v : String) (ts : ℕ) (rows : List Entry)
    → v == user ≡ true
    → latest user ((v, ts) ∷ rows) ≡ max ts (latest user rows)
unfolding latest
latest_self user v ts rows e = rw e refl

latest_other :
    (user v : String) (ts : ℕ) (rows : List Entry)
    → v == user ≡ false
    → latest user ((v, ts) ∷ rows) ≡ latest user rows
unfolding latest
latest_other user v ts rows e = rw e refl

latest-AtMost : (user : String) (rows : List Entry) → All (AtMost user (latest user rows)) rows
latest-AtMost user [] = tt
latest-AtMost user ((v, ts) ∷ rows) =
    let ih = latest-AtMost user rows in
    elim (Bool-cases (v == user)) [
      | inl e ↦
          subst (λ m. All (AtMost user m) ((v, ts) ∷ rows)) (sym (latest_self user v ts rows e))
            (
              λ h. ground arith,
              All-map rows (λ x f h. omega (arith, f h, max-right ts (latest user rows))) ih,
            )
      | inr e ↦
          subst (λ m. All (AtMost user m) ((v, ts) ∷ rows)) (sym (latest_other user v ts rows e))
            (λ h. absurd (false≢true (sym e ∙ (str_iff v user).1 h)), ih)
    ]

delete_before-All :
    (P : Entry → Type 0) (user : String) (m : ℕ) (rows : List Entry)
    → All P rows
    → All P (delete_before user m rows)
unfolding delete_before
delete_before-All P user m [] h = tt
delete_before-All P user m ((v, t) ∷ rows) (h, hs) =
    let ih = delete_before-All P user m rows hs in
    elim (Bool-cases (v == user && ltb t m)) [ inl e ↦ rw e ih | inr e ↦ rw e (h, ih) ]

delete_before-AtLeast :
    (user : String) (m : ℕ) (rows : List Entry) → All (AtLeast user m) (delete_before user m rows)
unfolding delete_before
delete_before-AtLeast user m [] = tt
delete_before-AtLeast user m ((v, t) ∷ rows) =
    let ih = delete_before-AtLeast user m rows in
    elim (Bool-cases (v == user && ltb t m)) [
      | inl e ↦ rw e ih
      | inr e ↦ rw e (λ h. kept-AtLeast v user t m ((str_iff v user).1 h) e, ih)
    ]

latest-delete_before-le :
    (u user : String) (m : ℕ) (rows : List Entry)
    → latest u (delete_before user m rows) ≤ latest u rows
unfolding latest delete_before
latest-delete_before-le u user m [] = omega arith
latest-delete_before-le u user m ((v, t) ∷ rows) =
    let ih = latest-delete_before-le u user m rows in
    elim (Bool-cases (v == user && ltb t m)) [
      | inl e ↦ elim (Bool-cases (v == u)) [
        | inl f ↦ rw e (rw f ground (arith, ih))
        | inr f ↦ rw e (rw f ih)
      ]
      | inr e ↦ elim (Bool-cases (v == u)) [
        | inl f ↦ rw e (rw f ground (arith, ih))
        | inr f ↦ rw e (rw f ih)
      ]
    ]

not_equal : (v u user : String) → v ≡ user → u == user ≡ false → v == u ≡ false
not_equal v u user h k = elim (Bool-cases (v == u)) [
  | inl e ↦ absurd (false≢true (sym k ∙ (str_iff u user).1 (sym ((str_iff v u).0 e) ∙ h)))
  | inr e ↦ e
]

-- Another user's latest time stays.
latest-delete_before_other :
    (u user : String) (m : ℕ) (rows : List Entry)
    → u == user ≡ false
    → latest u (delete_before user m rows) ≡ latest u rows
unfolding latest delete_before
latest-delete_before_other u user m [] h = refl
latest-delete_before_other u user m ((v, t) ∷ rows) h =
    let ih = latest-delete_before_other u user m rows h in
    elim (Bool-cases (v == user && ltb t m)) [
      | inl e ↦
          let is_user = (str_iff v user).0 (&&-eq-true (v == user) (ltb t m) e).0 in
          let is_other : v == u ≡ false = not_equal v u user is_user h in rw e (rw is_other ih)
      | inr e ↦ rw e (ap (λ n. if v == u then max t n else n) ih)
    ]

-- A user's latest time stays, if nothing from it on is deleted.
latest-delete_before_self :
    (user : String) (m : ℕ) (rows : List Entry)
    → m ≤ latest user rows
    → latest user (delete_before user m rows) ≡ latest user rows
unfolding latest delete_before
latest-delete_before_self user m [] h = refl
latest-delete_before_self user m ((v, t) ∷ rows) h = elim (Bool-cases (v == user)) [
  | inl e ↦
      let below = subst (λ n. m ≤ n) (latest_self user v t rows e) h in
      rw e elim (Bool-cases (ltb t m)) [
        | inl old ↦
            let t_lt = ltb→lt t m old in
            let rest_le : m ≤ latest user rows = ground (arith, below) in
            let ih = latest-delete_before_self user m rows rest_le in
            rw old (ih ∙ ground (arith, t_lt, rest_le))
        | inr recent ↦
            let m_le = ltb-false→le t m recent in
            let le = latest-delete_before-le user user m rows in
            rw recent (
              rw e elim (Bool-cases (leb m (latest user rows))) [
                | inl b ↦ ap (max t) (latest-delete_before_self user m rows (leb→le _ _ b))
                | inr b ↦ let lt = leb-false→lt _ _ b in ground (arith, m_le, le, lt)
              ])
      ]
  | inr e ↦
      let below : m ≤ latest user rows = subst (λ n. m ≤ n) (latest_other user v t rows e) h in
      rw e (rw e (latest-delete_before_self user m rows below))
]

latest-delete_before :
    (u user : String) (rows : List Entry)
    → latest u (delete_before user (latest user rows) rows) ≡ latest u rows
latest-delete_before u user rows = elim (Bool-cases (u == user)) [
  | inl e ↦
      subst (λ w. latest w (delete_before user (latest user rows) rows) ≡ latest w rows)
        (sym ((str_iff u user).0 e))
        (latest-delete_before_self user (latest user rows) rows (omega arith))
  | inr e ↦ latest-delete_before_other u user (latest user rows) rows e
]

All-both :
    (user : String) (m : ℕ) (rows : List Entry)
    → All (AtMost user m) rows
    → All (AtLeast user m) rows
    → All (Only user m) rows
All-both user m [] h k = tt
All-both user m (x ∷ rows) (h, hs) (k, ks) =
    (λ e. omega (arith, h e, k e), All-both user m rows hs ks)

-- Rows from which some may have been deleted, but no latest one of a user.
abbrev pub Thinned : List Entry → List Entry → Type 1
Thinned rows rows' =
    ((u : String) → latest u rows' ≡ latest u rows)
    × ((P : Entry → Type 0) → All P rows → All P rows')

pub Thinned-refl : (rows : List Entry) → Thinned rows rows
Thinned-refl rows = (λ u. refl, λ P h. h)

pub Thinned-delete_before :
    (user : String) (rows : List Entry) → Thinned rows (delete_before user (latest user rows) rows)
Thinned-delete_before user rows = (
  λ u. latest-delete_before u user rows,
  λ P h. delete_before-All P user (latest user rows) rows h,
)

-- Only the latest row of the user is left once the older ones are deleted.
pub delete_before-Only :
    (user : String) (rows : List Entry)
    → All (Only user (latest user rows)) (delete_before user (latest user rows) rows)
delete_before-Only user rows =
    All-both user (latest user rows) _
      (delete_before-All (AtMost user (latest user rows)) user _ rows (latest-AtMost user rows))
      (delete_before-AtLeast user (latest user rows) rows)

-- Without a time, the user has no other rows than those.
pub latest_zero-Only :
    (user : String) (rows : List Entry)
    → latest user rows ≡ 0
    → All (Only user (latest user rows)) rows
latest_zero-Only user rows zero_time =
    All-map rows (λ x f e. omega (arith, f e, zero_time)) (latest-AtMost user rows)
