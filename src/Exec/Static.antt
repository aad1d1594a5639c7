-- ===== src/Exec/Static.antt =====
-- Steps that neither read nor change the world: decoding an answer.
use scylla_k8s_example.Base.{
  ◌≡◌, refl, ◌∙◌, ap, sym, Bool, true, false, Option, none, some, if◌then◌else◌,
}
use scylla_k8s_example.Exec.{Exc, Result, ok, raised, diverged, Env, St}
use scylla_k8s_example.Exec.{Exec, pure, raise, ◌>>=◌, maybe}

pub record Static {A : Type 0} (m : Exec A) : Type 0 where
  pub result : Result A
  pub at : (e : Env) (s : St) → m e s ≡ (result, s)

module _ {A : Type 0} where
  pub Static-pure : (a : A) → Static (pure a)
  unfolding pure
  Static-pure a = record { result = ok a; at = λ e s. refl }

  pub Static-raise : (x : Exc) → Static (raise {A = A} x)
  unfolding raise
  Static-raise x = record { result = raised x; at = λ e s. refl }

  pub Static-if : (b : Bool) {m n : Exec A} → Static m → Static n → Static (if b then m else n)
  Static-if true km kn = km
  Static-if false km kn = kn

  pub Static-maybe :
      {B : Type 0} (o : Option B) {n : Exec A} {f : B → Exec A}
      → Static n
      → ((b : B) → Static (f b))
      → Static (maybe o n f)
  unfolding maybe
  Static-maybe none kn kf = kn
  Static-maybe (some b) kn kf = kf b

  -- One run of a static step shows all its runs.
  pub Static-runs :
      {m : Exec A} {e : Env} {s s' : St} {r : Result A}
      → Static m
      → m e s ≡ (r, s')
      → ((e' : Env) (t : St) → m e' t ≡ (r, t)) × (s' ≡ s)
  Static-runs {e} {s} {s'} {r} k h =
      let both : (k.result, s) ≡ (r, s') = sym (k.at e s) ∙ h in
      (
        λ e' t. k.at e' t ∙ ap (λ (p : Result A × St). (p.0, t)) both,
        sym (ap (λ (p : Result A × St). p.1) both),
      )

module _ {A B : Type 0} where
  continued :
      {m : Exec A} {f : A → Exec B} (r : Result A)
      → ((e : Env) (s : St) → m e s ≡ (r, s))
      → ((a : A) → Static (f a))
      → Static (m >>= f)
  unfolding ◌>>=◌
  continued (ok a) h kf = record { result = (kf a).result; at = λ e s. rw h ((kf a).at e s) }
  continued (raised x) h kf = record { result = raised x; at = λ e s. rw h refl }
  continued diverged h kf = record { result = diverged; at = λ e s. rw h refl }

  pub Static-bind :
      {m : Exec A} {f : A → Exec B} → Static m → ((a : A) → Static (f a)) → Static (m >>= f)
  Static-bind km kf = continued km.result km.at kf

pub ruleset static_rules = (Static-pure, Static-raise, Static-if, Static-maybe, Static-bind)
