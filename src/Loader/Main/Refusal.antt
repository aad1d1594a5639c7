-- ===== src/Loader/Main/Refusal.antt =====
-- The errors of a run of the loader (sample_app/loader.py, `main`).
use scylla_k8s_example.Base.{
  ℕ, ◌<◌, String, ◌≡◌, refl, ap, ◌∙◌, ◌⊎◌, inl, inr, Bool, true, false, Option, none, some, List,
  [], ◌∷◌, arith,
}
use scylla_k8s_example.Base.{if◌then◌else◌, ltb, Bool-cases, lt→ltb, ltb-false→le}
use scylla_k8s_example.Connection.{Files, Line, resolve_connection}
use scylla_k8s_example.Connection
use scylla_k8s_example.Script.{
  Script, History, Outcome, ok, raised, exited, pure, raise, exit, ◌>>=◌, continue, handle, catch,
  emit, logged, for_each, maybe, attempt,
}
use scylla_k8s_example.Script
use scylla_k8s_example.Script.Open.{opens, count_by, count_by-last}
use scylla_k8s_example.Script.Session.{resolved}
use scylla_k8s_example.Loader.Insert.{World, Tally}
use scylla_k8s_example.Loader.Totals.{Speaks}
use scylla_k8s_example.Base.{◌≤◌}
use scylla_k8s_example.Loader.Main.{Options, check_options, main}

-- The run returns or exits: no exception is left uncaught.
abbrev pub Settled : {A : Type 0} → Outcome A → Type 0
Settled (ok a) = Unit
Settled (raised m) = ⊥
Settled (exited code) = Unit

pub record Settles {A : Type 0} (m : Script A) : Type 0 where
  pub at : (w : Script.World) (h : History) → Settled (m w h).0

module _ {A : Type 0} where
  Settles-pure : (a : A) → Settles (pure a)
  unfolding pure
  Settles-pure a = record { at = λ w h. tt }

  Settles-exit : (code : ℕ) → Settles (exit {A = A} code)
  unfolding exit
  Settles-exit code = record { at = λ w h. tt }

  Settles-if : (b : Bool) {m n : Script A} → Settles m → Settles n → Settles (if b then m else n)
  Settles-if true km kn = km
  Settles-if false km kn = kn

  Settles-maybe :
      {B : Type 0} (o : Option B) {n : Script A} {f : B → Script A}
      → Settles n
      → ((b : B) → Settles (f b))
      → Settles (maybe o n f)
  unfolding maybe
  Settles-maybe none kn kf = kn
  Settles-maybe (some b) kn kf = kf b

  handled :
      (r : Outcome A) {f : String → Script A}
      → ((m : String) → Settles (f m))
      → Settles (handle r f)
  handled (ok a) kf = Settles-pure a
  handled (raised m) kf = kf m
  handled (exited code) kf = Settles-exit code

  -- Whatever the block does.
  Settles-catch :
      (m : Script A) {f : String → Script A} → ((x : String) → Settles (f x)) → Settles (catch m f)
  unfolding catch
  Settles-catch m kf = record { at = λ w h. let (r, h') = m w h in (handled r kf).at w h' }

module _ {A B : Type 0} where
  continued :
      (r : Outcome A) {f : A → Script B}
      → Settled r
      → ((a : A) → Settles (f a))
      → Settles (continue r f)
  continued (ok a) k kf = kf a
  continued (raised m) k kf = elim k [ ]
  continued (exited code) k kf = Settles-exit code

  Settles-bind :
      {m : Script A} {f : A → Script B} → Settles m → ((a : A) → Settles (f a)) → Settles (m >>= f)
  unfolding ◌>>=◌
  Settles-bind {m} km kf = record {
    at = λ w h. let (r, h') = m w h in (continued r (km.at w h) kf).at w h';
  }

Settles-log : (line : Line) → Settles (emit (logged line))
unfolding emit
Settles-log line = record { at = λ w h. tt }

Settles-for_each :
    {A : Type 0} (xs : List A) {body : A → Script Unit}
    → ((x : A) → Settles (body x))
    → Settles (for_each xs body)
unfolding for_each
Settles-for_each [] kb = Settles-pure tt
Settles-for_each (x ∷ xs) kb = Settles-bind (kb x) (λ _. Settles-for_each xs kb)

ruleset settles_rules = (
  Settles-pure, Settles-exit, Settles-if, Settles-maybe, Settles-catch, Settles-bind, Settles-log,
  Settles-for_each,
)

Settles-resolved : (opts : Connection.Options) (files : Files) → Settles (resolved opts files)
unfolding resolved
Settles-resolved opts files = search settles_rules depth 8

Settles-check_options : (opts : Options) → Settles (check_options opts)
unfolding check_options
Settles-check_options opts = search settles_rules depth 8

-- If a batch has at least one row and each sentence that `faker` makes has a character, then whatever
-- the other options, the files and the database do, a run of the loader returns or exits, and leaves
-- no exception uncaught.
pub main-Settles :
    (w : World) (endless : Script Tally) (cpus : ℕ) (opts : Options) (files : Files)
    → 1 ≤ opts.batch_size
    → Speaks w
    → Settles (main w endless cpus opts files)
unfolding main
main-Settles w endless cpus opts files batch speaks =
    search (settles_rules, Settles-resolved, Settles-check_options) depth 20

-- The run exits with 1 and has opened nothing.
pub record Refuses {A : Type 0} (m : Script A) : Type 0 where
  pub at :
      (w : Script.World) (h : History)
      → ((m w h).0 ≡ exited 1) × (count_by opens (m w h).1 ≡ count_by opens h)

-- The run opens nothing, and if it does not return it exits with 1.
abbrev Passes : {A : Type 0} → Outcome A → Type 0
Passes (ok a) = Unit
Passes (raised m) = ⊥
Passes (exited code) = code ≡ 1

record Checks {A : Type 0} (m : Script A) : Type 0 where
  at :
      (w : Script.World) (h : History)
      → Passes (m w h).0 × (count_by opens (m w h).1 ≡ count_by opens h)

module _ {A B : Type 0} where
  stopped :
      (r : Outcome A) (f : A → Script B) (w : Script.World) (h : History)
      → Passes r
      → ((a : A) → Refuses (f a))
      → (let (r', h') = continue r f w h in
          (r' ≡ exited 1) × (count_by opens h' ≡ count_by opens h))
  unfolding exit
  stopped (ok a) f w h k kf = (kf a).at w h
  stopped (raised m) f w h k kf = elim k [ ]
  stopped (exited code) f w h k kf = (ap exited k, refl)

  Refuses-bind :
      {m : Script A} {f : A → Script B} → Checks m → ((a : A) → Refuses (f a)) → Refuses (m >>= f)
  unfolding ◌>>=◌
  Refuses-bind {m} {f} km kf = record {
    at = λ w h.
        let (r, h') = m w h in
        let (k, same) = km.at w h in
        let (code, same') = stopped r f w h' k kf in (code, same' ∙ same);
  }

  Refuses-first : {m : Script A} (f : A → Script B) → Refuses m → Refuses (m >>= f)
  unfolding ◌>>=◌ exit
  Refuses-first {m} f km = record {
    at = λ w h. let (code, same) = km.at w h in rw code (refl, same);
  }

  passed :
      (r : Outcome A) (f : A → Script B) (w : Script.World) (h : History)
      → Passes r
      → ((a : A) → Checks (f a))
      → (let (r', h') = continue r f w h in Passes r' × (count_by opens h' ≡ count_by opens h))
  unfolding exit
  passed (ok a) f w h k kf = (kf a).at w h
  passed (raised m) f w h k kf = elim k [ ]
  passed (exited code) f w h k kf = (k, refl)

  Checks-bind :
      {m : Script A} {f : A → Script B} → Checks m → ((a : A) → Checks (f a)) → Checks (m >>= f)
  unfolding ◌>>=◌
  Checks-bind {m} {f} km kf = record {
    at = λ w h.
        let (r, h') = m w h in
        let (k, same) = km.at w h in let (k', same') = passed r f w h' k kf in (k', same' ∙ same);
  }

Checks-pure : {A : Type 0} (a : A) → Checks (pure a)
unfolding pure
Checks-pure a = record { at = λ w h. (tt, refl) }

Refuses-exit : {A : Type 0} → Refuses (exit {A = A} 1)
unfolding exit
Refuses-exit = record { at = λ w h. (refl, refl) }

Checks-exit : {A : Type 0} → Checks (exit {A = A} 1)
unfolding exit
Checks-exit = record { at = λ w h. (refl, refl) }

Checks-log : (line : Line) → Checks (emit (logged line))
unfolding emit
Checks-log line = record { at = λ w h. (tt, omega (arith, count_by-last opens h (logged line))) }

Checks-for_each :
    {A : Type 0} (xs : List A) {body : A → Script Unit}
    → ((x : A) → Checks (body x))
    → Checks (for_each xs body)
unfolding for_each
Checks-for_each [] kb = Checks-pure tt
Checks-for_each (x ∷ xs) kb = Checks-bind (kb x) (λ _. Checks-for_each xs kb)

Checks-maybe :
    {A B : Type 0} (o : Option B) {n : Script A} {f : B → Script A}
    → Checks n
    → ((b : B) → Checks (f b))
    → Checks (maybe o n f)
unfolding maybe
Checks-maybe none kn kf = kn
Checks-maybe (some b) kn kf = kf b

Checks-resolved : (opts : Connection.Options) (files : Files) → Checks (resolved opts files)
unfolding resolved
Checks-resolved opts files =
    search (Checks-pure, Checks-exit, Checks-log, Checks-for_each, Checks-maybe, Checks-bind) depth
      8

Refuses-check_options :
    (opts : Options) → (opts.buckets < 1) ⊎ (opts.rf < 1) → Refuses (check_options opts)
unfolding check_options
Refuses-check_options opts bad = elim (Bool-cases (ltb opts.buckets 1)) [
  | inl few ↦ rw few (Refuses-bind (Checks-log _) (λ _. Refuses-exit))
  | inr enough ↦
      let low : opts.rf < 1 = elim bad [
        | inl b ↦ absurd (omega (arith, ltb-false→le _ _ enough, b))
        | inr r ↦ r
      ] in
      rw (enough, lt→ltb _ _ low) (Refuses-bind (Checks-log _) (λ _. Refuses-exit))
]

-- Without a partition bucket, or with no replica, a run of the loader exits with 1 and has opened no
-- session.
pub main-Refuses :
    (w : World) (endless : Script Tally) (cpus : ℕ) (opts : Options) (files : Files)
    → (opts.buckets < 1) ⊎ (opts.rf < 1)
    → Refuses (main w endless cpus opts files)
unfolding main
main-Refuses w endless cpus opts files bad =
    Refuses-bind (Checks-resolved opts.connection files) λ p. Refuses-bind (Checks-log _) λ _.
      Refuses-bind (Checks-log _) λ _.
        Refuses-bind (Checks-log _)
          λ _. Refuses-bind (Checks-log _) λ _. Refuses-first _ (Refuses-check_options opts bad)
