-- ===== src/Exec/Steps.antt =====
-- Taking a sequence of steps apart, and facts that stay true as the history grows.
use mathlib.Core.Path.{fun_ext}
use scylla_k8s_example.Base.{
  Bool, Bool-cases, inl, inr, ◌⊎◌, ◌++◌, ◌≡◌, ◌≢◌, refl, ap, sym, ◌∙◌, List, [], ◌∷◌, All,
}
use scylla_k8s_example.Exec.{Result, ok, raised, diverged, Event, Env, St}
use scylla_k8s_example.Exec.{Exc, out_of_fuel}
use scylla_k8s_example.Exec.{
  Exec, handle, try_catch, ◌>>=◌, continue, pure, raise, gets, send, received, Call, Reply,
  Response, response, unreachable, sent,
}
use scylla_k8s_example.Exec.Emits.{Extends, same, more}

module _ {A B : Type 0} where
  split_ok :
      (p : Result A × St) (f : A → Exec B) {e : Env} {b : B} {s' : St}
      → continue p.0 f e p.1 ≡ (ok b, s')
      → (a : A) × (s1 : St) × (p ≡ (ok a, s1)) × (f a e s1 ≡ (ok b, s'))
  unfolding ◌>>=◌
  split_ok (ok a, s1) f h = (a, s1, refl, h)
  split_ok (raised x, s1) f h = cc (ap (λ (p : Result B × St). p.0) h)
  split_ok (diverged, s1) f h = cc (ap (λ (p : Result B × St). p.0) h)

  -- Both steps of a sequence that returns have returned.
  pub bind-ok :
      (m : Exec A) (f : A → Exec B) {e : Env} {s s' : St} {b : B}
      → (m >>= f) e s ≡ (ok b, s')
      → (a : A) × (s1 : St) × (m e s ≡ (ok a, s1)) × (f a e s1 ≡ (ok b, s'))
  unfolding ◌>>=◌
  bind-ok m f {e} {s} h = split_ok (m e s) f h

  split_rule :
      (P : St → Type 0) (p : Result A × St) (f : A → Exec B) (e : Env)
      → P p.1
      → ((a : A) (s1 : St) → p ≡ (ok a, s1) → P (f a e s1).1)
      → P (continue p.0 f e p.1).1
  unfolding ◌>>=◌
  split_rule P (ok a, s1) f e h k = k a s1 refl
  split_rule P (raised x, s1) f e h k = h
  split_rule P (diverged, s1) f e h k = h

  -- A property of the state after a sequence: it holds if the first step ends the sequence, and
  -- after the second step otherwise.
  pub bind_rule :
      (P : St → Type 0) (m : Exec A) (f : A → Exec B) (e : Env) (s : St)
      → P (m e s).1
      → ((a : A) (s1 : St) → m e s ≡ (ok a, s1) → P (f a e s1).1)
      → P ((m >>= f) e s).1
  unfolding ◌>>=◌
  bind_rule P m f e s h k = split_rule P (m e s) f e h k

pub pure-ok :
    {A : Type 0} (a : A) (e : Env) (s : St) {s' : St} {b : A}
    → pure a e s ≡ (ok b, s')
    → (a ≡ b) × (s' ≡ s)
unfolding pure
pure-ok {A} a e s h =
    let first = ap (λ (p : Result A × St). p.0) h in
    (cc first, sym (ap (λ (p : Result A × St). p.1) h))

pub gets-ok :
    {A : Type 0} (f : St → A) (e : Env) (s : St) {s' : St} {b : A}
    → gets f e s ≡ (ok b, s')
    → (f s ≡ b) × (s' ≡ s)
unfolding gets
gets-ok {A} f e s h =
    let first = ap (λ (p : Result A × St). p.0) h in
    (cc first, sym (ap (λ (p : Result A × St). p.1) h))

-- A call that returns has recorded its answer.
pub received-ok :
    (r : Reply) (e : Env) (s : St) {s' : St} {a : Response}
    → received r e s ≡ (ok a, s')
    → (r ≡ response a) × (s' ≡ s)
unfolding pure raise
received-ok (response a) e s h =
    let first = ap (λ (p : Result Response × St). p.0) h in
    (cc first, sym (ap (λ (p : Result Response × St). p.1) h))
received-ok (unreachable m) e s h = cc (ap (λ (p : Result Response × St). p.0) h)

pub send-ok :
    (c : Call) (e : Env) (s : St) {s' : St} {r : Response}
    → send c e s ≡ (ok r, s')
    → s'.trace ≡ sent c (response r) ∷ s.trace
unfolding send
send-ok c e s h =
    let (same_reply, same_state) = received-ok (e.reply s.trace c) e _ h in
    ap (λ (u : St). u.trace) same_state ∙ ap (λ r. sent c r ∷ s.trace) same_reply

module _ {A B C : Type 0} where
  split_assoc :
      (p : Result A × St) (f : A → Exec B) (g : B → Exec C) (e : Env)
      → (let (r, t) = continue p.0 f e p.1 in continue r g e t)
        ≡ continue p.0 (λ a. f a >>= g) e p.1
  unfolding ◌>>=◌
  split_assoc (ok a, t) f g e = refl
  split_assoc (raised x, t) f g e = refl
  split_assoc (diverged, t) f g e = refl

  pub bind_assoc :
      (m : Exec A) (f : A → Exec B) (g : B → Exec C) → ((m >>= f) >>= g) ≡ (m >>= λ a. f a >>= g)
  unfolding ◌>>=◌
  bind_assoc m f g = fun_ext λ e. fun_ext λ s. split_assoc (m e s) f g e

module _ {A B : Type 0} where
  pub pure-bind : (a : A) (f : A → Exec B) → (pure a >>= f) ≡ f a
  unfolding pure ◌>>=◌
  pure-bind a f = refl

  -- After a step that returns `a` and changes nothing.
  pub bind_after :
      (m : Exec A) (f : A → Exec B) (e : Env) (s : St) {a : A} {s' : St}
      → m e s ≡ (ok a, s')
      → (m >>= f) e s ≡ f a e s'
  unfolding ◌>>=◌
  bind_after m f e s h = rw h refl

-- Some item of a list has the property.
pub data Some {A : Type 0} (P : A → Type 0) : List A → Type 0 where
  here : {x : A} {l : List A} → P x → Some P (x ∷ l)
  there : {x : A} {l : List A} → Some P l → Some P (x ∷ l)

-- What happened stays in the history.
pub Some-grow : {P Q : Event → Type 0} {t u : List Event} → Extends Q t u → Some P t → Some P u
Some-grow same p = p
Some-grow (more q r) p = there (Some-grow r p)

-- What a list of facts about the history says, it says of a longer history.
pub All-grow :
    {A : Type 0} (P : A → List Event → Type 0) {t u : List Event} (l : List A)
    → ((a : A) → P a t → P a u)
    → All (λ a. P a t) l
    → All (λ a. P a u) l
All-grow P [] f h = tt
All-grow P (a ∷ l) f h = (f a h.0, All-grow P l f h.1)

pub ruleset monad_laws = (bind_assoc, pure-bind)

module _ {A : Type 0} where
  -- Neither a loop out of fuel nor an exception returns.
  pub out_of_fuel≢ok : (e : Env) (s : St) {s' : St} {a : A} → out_of_fuel e s ≢ (ok a, s')
  unfolding out_of_fuel
  out_of_fuel≢ok e s h = cc (ap (λ (p : Result A × St). p.0) h)

  pub raise≢ok : (x : Exc) (e : Env) (s : St) {s' : St} {a : A} → raise x e s ≢ (ok a, s')
  unfolding raise
  raise≢ok x e s h = cc (ap (λ (p : Result A × St). p.0) h)

module _ {A : Type 0} where
  handled_ok :
      (r : Result A) (catches : Exc → Bool) (h : Exc → Exec A) (e : Env) (s : St) {s' : St} {a : A}
      → handle r catches h e s ≡ (ok a, s')
      → ((r ≡ ok a) × (s' ≡ s)) ⊎ ((x : Exc) × ((r ≡ raised x) × (h x e s ≡ (ok a, s'))))
  handled_ok (ok b) catches h e s eq =
      let (same_b, same_s) = pure-ok b e s eq in inl (ap ok same_b, same_s)
  handled_ok diverged catches h e s eq = absurd (out_of_fuel≢ok e s eq)
  handled_ok (raised x) catches h e s eq = elim (Bool-cases (catches x)) [
    | inl c ↦ inr (x, (refl, rw c at eq))
    | inr c ↦ absurd (raise≢ok x e s (rw c at eq))
  ]

  -- A step whose handler always raises has returned by itself.
  pub try_catch-ok :
      (catches : Exc → Bool) (m : Exec A) (f : Exc → Exc) (e : Env) (s : St) {s' : St} {a : A}
      → try_catch catches m (λ x. raise (f x)) e s ≡ (ok a, s')
      → m e s ≡ (ok a, s')
  unfolding try_catch
  try_catch-ok catches m f e s {s'} {a} eq =
      elim (handled_ok (m e s).0 catches (λ x. raise (f x)) e (m e s).1 eq) [
        | inl (r, same_s) ↦ ap (λ r. (r, (m e s).1)) r ∙ ap (λ u. (ok a, u)) (sym same_s)
        | inr (x, (r, raises)) ↦ absurd (raise≢ok (f x) e _ raises)
      ]

-- Membership, and what it keeps when a list is made longer at its end.
pub Some-append : {A : Type 0} {P : A → Type 0} (l r : List A) → Some P l → Some P (l ++ r)
Some-append [] r p = elim p [ ]
Some-append (x ∷ l) r (here h) = here h
Some-append (x ∷ l) r (there p) = there (Some-append l r p)

pub Some-last : {A : Type 0} (a : A) (l : List A) → Some (λ x. x ≡ a) (l ++ (a ∷ []))
Some-last a [] = here refl
Some-last a (x ∷ l) = there (Some-last a l)
