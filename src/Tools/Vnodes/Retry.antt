-- ===== src/Tools/Vnodes/Retry.antt =====
-- Reading again (sample_app/create_vnodes_ks_index_mv_counters.py, `retry`).
use scylla_k8s_example.Base.{
  ℕ, zero, suc, ◌+◌, ◌*◌, ◌-◌, ◌≤◌, ◌≡◌, refl, subst, String, Option, some, true, false, [], ◌∷◌,
  ◌++◌, ◌⊎◌, inl, inr, arith,
}
use scylla_k8s_example.Base.{nat_beq_iff, nat_beq-false, nat_eq, ◌==◌}
use scylla_k8s_example.Script.{
  Script, World, History, slept, Outcome, ok, raised, exited, pure, raise, ◌>>=◌, catch, handle,
  continue, exit, printed, emit,
}
use scylla_k8s_example.Tools.Vnodes.{retry_from, retry, after_failure}

-- How a try ends, as the end of the loop.
abbrev pub given : {A : Type 0} → Outcome A → Outcome (Option A)
given (ok a) = ok (some a)
given (raised e) = raised e
given (exited code) = exited code

abbrev pub NotRaised : {A : Type 0} → Outcome A → Type 0
NotRaised (ok a) = Unit
NotRaised (raised e) = ⊥
NotRaised (exited code) = Unit

module _ {A : Type 0} (fn : Script A) (delay : ℕ) (w : World) where
  -- The loop ends where this try does, as it does.
  abbrev pub Last : History → Outcome (Option A) → History → Type 0
  Last h r h' = (x : Outcome A) × (fn w h ≡ (x, h')) × (r ≡ given x)

  -- What the loop does with this many tries left after the next one: it ends with that try, unless
  -- the try raises and others are left; then it prints one line, sleeps for the delay, and goes on
  -- from there.
  abbrev pub Tried : ℕ → History → Outcome (Option A) → History → Type 0
  Tried zero h r h' = Last h r h'
  Tried (suc n) h r h' =
      (Last h r h' × NotRaised r)
      ⊎ ((e : String) × (h1 : History) × (line : String) × (fn w h ≡ (raised e, h1))
          × Tried n ((h1 ++ (printed line ∷ [])) ++ (slept (delay * 1000) ∷ [])) r h')

  Last-try :
      (k : ℕ) (others : Script (Option A)) (h : History) (p : Outcome A × History)
      → fn w h ≡ p
      → (let (r, h1) = p in
          let (r1, h2) = continue r (λ a. pure (some a)) w h1 in
          let (r2, h') = handle r1 (after_failure k (k + 0) delay others) w h2 in Last h r2 h')
  unfolding pure raise exit
  Last-try k others h (ok a, h1) at = (ok a, at, refl)
  Last-try k others h (raised e, h1) at =
      let last : (k == k + 0) ≡ true = (nat_beq_iff k (k + 0)).1 (omega arith) in
      rw last (raised e, at, refl)
  Last-try k others h (exited code, h1) at = (exited code, at, refl)

  Tried-earlier :
      (n k : ℕ) (others : Script (Option A)) (h : History) (p : Outcome A × History)
      → fn w h ≡ p
      → ((t : History) → let (r, h') = others w t in Tried n t r h')
      → (let (r, h1) = p in
          let (r1, h2) = continue r (λ a. pure (some a)) w h1 in
          let (r2, h') = handle r1 (after_failure k (k + suc n) delay others) w h2 in
          Tried (suc n) h r2 h')
  unfolding pure raise exit ◌>>=◌ emit
  Tried-earlier n k others h (ok a, h1) at rest = inl ((ok a, at, refl), tt)
  Tried-earlier n k others h (raised e, h1) at rest =
      let more : (k == k + suc n) ≡ false =
        nat_beq-false k (k + suc n) (λ same. absurd (omega arith)) in
      rw more (inr (e, h1, _, at, rest _))
  Tried-earlier n k others h (exited code, h1) at rest = inl ((exited code, at, refl), tt)

  retried :
      (n k : ℕ) (h : History)
      → (let (r, h') = retry_from (suc n) k (k + n) delay fn w h in Tried n h r h')
  unfolding retry_from catch ◌>>=◌
  retried zero k h = Last-try k _ h (fn w h) refl
  retried (suc n) k h = Tried-earlier n k _ h (fn w h) refl λ t.
      subst (λ m. let (r, h') = retry_from (suc n) (suc k) m delay fn w t in Tried n t r h')
        (omega arith) (retried n (suc k) t)

-- If at least one try is asked for, the loop tries at most so often and ends as its last try did: it
-- returns what that try returned, never `None`, or raises what it raised, and raises only if all
-- tries have raised. After each try but the last it prints one line and sleeps for the delay, and it
-- does nothing else.
pub retry-Tried :
    {A : Type 0} (fn : Script A) (attempts delay : ℕ) (w : World) (h : History)
    → 1 ≤ attempts
    → (let (r, h') = retry attempts delay fn w h in Tried fn delay w (attempts - 1) h r h')
retry-Tried fn zero delay w h one = absurd (omega arith)
retry-Tried fn (suc n) delay w h one =
    subst (λ left. let (r, h') = retry (suc n) delay fn w h in Tried fn delay w left h r h')
      (omega arith)
      (subst (λ m. let (r, h') = retry_from (suc n) 1 m delay fn w h in Tried fn delay w n h r h')
        (omega arith) (retried fn delay w n 1 h))
