-- ===== src/Exec/Guarded.antt =====
-- Histories in which certain events only happen after something else has happened.
use scylla_k8s_example.Base.{◌≡◌, subst, List, [], ◌∷◌, All}
use scylla_k8s_example.Exec.{Result, ok, Event, Env, St, Exec, ◌>>=◌, for_each}
use scylla_k8s_example.Exec.Emits.{
  Extends, same, more, Emits, Anything, Emits-for_each, Extends-run,
}
use scylla_k8s_example.Exec.Steps.{bind_rule, bind-ok}

-- The second history is the first with events added, and each added event of `X` found that `need`
-- held of what was there before it.
pub data Guarded (X : Event → Type 0) (need : List Event → Type 0) (t : List Event)
    : List Event → Type 0 where
  start : Guarded X need t t
  next :
      {ev : Event} {u : List Event}
      → (X ev → need u)
      → Guarded X need t u
      → Guarded X need t (ev ∷ u)

-- What held before holds after.
abbrev pub Grows : (List Event → Type 0) → Type 0
Grows need = (t u : List Event) → Extends Anything t u → need t → need u

module _ {X : Event → Type 0} {need : List Event → Type 0} where
  pub Guarded-trans :
      {t u v : List Event} → Guarded X need t u → Guarded X need u v → Guarded X need t v
  Guarded-trans p start = p
  Guarded-trans p (next f r) = next f (Guarded-trans p r)

  -- Events outside `X` need nothing.
  pub Guarded-others : {t u : List Event} → Extends (λ ev. ¬ X ev) t u → Guarded X need t u
  Guarded-others same = start
  Guarded-others (more {ev} q r) = next (λ x. absurd (q x)) (Guarded-others r)

  pub Guarded-granted :
      Grows need → {t u : List Event} → need t → Extends Anything t u → Guarded X need t u
  Guarded-granted grows h same = start
  Guarded-granted grows h (more {ev} {u} q r) =
      next (λ x. grows _ _ r h) (Guarded-granted grows h r)

  module _ {A B : Type 0} where
    -- A first step without an event of `X`.
    pub guarded_bind :
        (m : Exec A) (f : A → Exec B) (e : Env) (s : St)
        → Emits (λ ev. ¬ X ev) m
        → ((a : A) (s1 : St) → m e s ≡ (ok a, s1) → Guarded X need s1.trace (f a e s1).1.trace)
        → Guarded X need s.trace ((m >>= f) e s).1.trace
    guarded_bind m f e s km k =
        bind_rule (λ u. Guarded X need s.trace u.trace) m f e s (Guarded-others (km.at e s))
          (λ a s1 h.
            Guarded-trans
              (subst (λ (p : Result A × St). Guarded X need s.trace p.1.trace) h
                (Guarded-others (km.at e s)))
              (k a s1 h))

-- What each round of a loop establishes, and what stays true, holds of all items after the loop.
pub for_each-All :
    {A : Type 0} (P : A → List Event → Type 0) (body : A → Exec Unit) (e : Env)
    → ((x : A) → Grows (P x))
    → ((x : A) → Emits Anything (body x))
    → ((x : A) (s s' : St) → body x e s ≡ (ok tt, s') → P x s'.trace)
    → (xs : List A) (s : St) {s' : St} → for_each xs body e s ≡ (ok tt, s')
    → All (λ x. P x s'.trace) xs
unfolding for_each
for_each-All P body e grows kb post [] s h = tt
for_each-All P body e grows kb post (x ∷ xs) s h =
    let (_, s1, h1, h2) = bind-ok _ _ h in
    (
      grows x _ _ (Extends-run (Emits-for_each xs kb) e s1 h2) (post x s s1 h1),
      for_each-All P body e grows kb post xs s1 h2,
    )

-- A weaker need.
pub Guarded-weaken :
    {X : Event → Type 0} {need other : List Event → Type 0} {t u : List Event}
    → ((v : List Event) → need v → other v)
    → Guarded X need t u
    → Guarded X other t u
Guarded-weaken f start = start
Guarded-weaken f (next g r) = next (λ x. f _ (g x)) (Guarded-weaken f r)
