-- ===== src/Exec/Halts.antt =====
-- Steps that end: their loops do not run out of fuel, whatever state they start in.
use scylla_k8s_example.Base.{
  ℕ, ◌≡◌, ◌≢◌, refl, Bool, true, false, List, [], ◌∷◌, Option, none, some, String,
}
use scylla_k8s_example.Base.{if◌then◌else◌}
use scylla_k8s_example.Exec.{
  Exc, Result, ok, raised, diverged, Call, Reply, response, unreachable, Event, Env, St, Exec,
}
use scylla_k8s_example.Exec.{
  handle, try_catch, set_addresses, set_api_host, pure, raise, gets, ◌>>=◌, continue, maybe, emit,
  clock, send, received, for_each,
}

pub record Halts {A : Type 0} (e : Env) (m : Exec A) : Type 0 where
  pub at : (s : St) → (m e s).0 ≢ diverged

ok≢diverged : {A : Type 0} {a : A} → ◌≢◌ {A = Result A} (ok a) diverged
ok≢diverged h = cc h

raised≢diverged : {A : Type 0} {x : Exc} → ◌≢◌ {A = Result A} (raised x) diverged
raised≢diverged h = cc h

module _ {A B : Type 0} where
  after_halt :
      (p : Result A × St) (f : A → Exec B) (e : Env)
      → p.0 ≢ diverged
      → ((a : A) (s1 : St) → p ≡ (ok a, s1) → (f a e s1).0 ≢ diverged)
      → (continue p.0 f e p.1).0 ≢ diverged
  unfolding raise
  after_halt (ok a, s1) f e h k = k a s1 refl
  after_halt (raised x, s1) f e h k = raised≢diverged
  after_halt (diverged, s1) f e h k = absurd (h refl)

  -- A sequence ends if both steps do, the second from where the first ended.
  pub halts_bind :
      (m : Exec A) (f : A → Exec B) (e : Env) (s : St)
      → (m e s).0 ≢ diverged
      → ((a : A) (s1 : St) → m e s ≡ (ok a, s1) → (f a e s1).0 ≢ diverged)
      → ((m >>= f) e s).0 ≢ diverged
  unfolding ◌>>=◌
  halts_bind m f e s h k = after_halt (m e s) f e h k

  pub Halts-bind :
      {e : Env} {m : Exec A} {f : A → Exec B}
      → Halts e m
      → ((a : A) → Halts e (f a))
      → Halts e (m >>= f)
  Halts-bind {e} {m} {f} km kf = record {
    at = λ s. halts_bind m f e s (km.at s) (λ a s1 h. (kf a).at s1);
  }

module _ {A : Type 0} {e : Env} where
  pub Halts-pure : (a : A) → Halts e (pure a)
  unfolding pure
  Halts-pure a = record { at = λ s. ok≢diverged }

  pub Halts-raise : (x : Exc) → Halts e (raise {A = A} x)
  unfolding raise
  Halts-raise x = record { at = λ s. raised≢diverged }

  pub Halts-gets : (f : St → A) → Halts e (gets f)
  unfolding gets
  Halts-gets f = record { at = λ s. ok≢diverged }

  pub Halts-if : (b : Bool) {m n : Exec A} → Halts e m → Halts e n → Halts e (if b then m else n)
  Halts-if true km kn = km
  Halts-if false km kn = kn

  pub Halts-maybe :
      {B : Type 0} (o : Option B) {n : Exec A} {f : B → Exec A}
      → Halts e n
      → ((b : B) → Halts e (f b))
      → Halts e (maybe o n f)
  unfolding maybe
  Halts-maybe none kn kf = kn
  Halts-maybe (some b) kn kf = kf b

module _ {A : Type 0} {e : Env} where
  handled :
      (r : Result A) (catches : Exc → Bool) (h : Exc → Exec A) (s : St)
      → r ≢ diverged
      → ((x : Exc) → Halts e (h x))
      → (handle r catches h e s).0 ≢ diverged
  handled (ok a) catches h s k kh = (Halts-pure a).at s
  handled (raised x) catches h s k kh = (Halts-if (catches x) (kh x) (Halts-raise x)).at s
  handled diverged catches h s k kh = absurd (k refl)

  pub Halts-try_catch :
      (catches : Exc → Bool) {m : Exec A} {h : Exc → Exec A}
      → Halts e m
      → ((x : Exc) → Halts e (h x))
      → Halts e (try_catch catches m h)
  unfolding try_catch
  Halts-try_catch catches {m} {h} km kh = record {
    at = λ s. let (r, s1) = m e s in handled r catches h s1 (km.at s) kh;
  }

module _ {e : Env} where
  pub Halts-set_addresses : (id : String) (l : List String) → Halts e (set_addresses id l)
  unfolding set_addresses
  Halts-set_addresses id l = record { at = λ s. ok≢diverged }

  pub Halts-set_api_host : (id : String) (host : Option String) → Halts e (set_api_host id host)
  unfolding set_api_host
  Halts-set_api_host id host = record { at = λ s. ok≢diverged }

  pub Halts-emit : (ev : Event) → Halts e (emit ev)
  unfolding emit
  Halts-emit ev = record { at = λ s. ok≢diverged }

  Halts-received : (r : Reply) → Halts e (received r)
  Halts-received (response r) = Halts-pure r
  Halts-received (unreachable m) = Halts-raise _

  pub Halts-send : (c : Call) → Halts e (send c)
  unfolding send
  Halts-send c = record { at = λ s. (Halts-received (e.reply s.trace c)).at _ }

  pub Halts-for_each :
      {A : Type 0} (xs : List A) {body : A → Exec Unit}
      → ((x : A) → Halts e (body x))
      → Halts e (for_each xs body)
  unfolding for_each
  Halts-for_each [] kb = Halts-pure tt
  Halts-for_each (x ∷ xs) kb = Halts-bind (kb x) (λ _. Halts-for_each xs kb)

-- The clock and an event, followed by another step.
pub clock_then :
    {A : Type 0} (f : ℕ → Exec A) (e : Env) (s : St) → (clock >>= f) e s ≡ f (e.now s.trace) e s
unfolding clock ◌>>=◌
clock_then f e s = refl

pub emit_then :
    {A : Type 0} (ev : Event) (f : Unit → Exec A) (e : Env) (s : St)
    → (emit ev >>= f) e s ≡ f tt e (record s { trace = ev ∷ s.trace })
unfolding emit ◌>>=◌
emit_then ev f e s = refl

pub ruleset halts_rules = (
  Halts-pure, Halts-raise, Halts-gets, Halts-if, Halts-maybe, Halts-bind, Halts-emit, Halts-send,
  Halts-for_each, Halts-try_catch, Halts-set_addresses, Halts-set_api_host,
)
