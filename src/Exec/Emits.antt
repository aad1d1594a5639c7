-- ===== src/Exec/Emits.antt =====
-- Which events a step adds to the history, whether it returns, raises or runs out of fuel.
use scylla_k8s_example.Base.{◌≡◌, subst, Bool, true, false, List, [], ◌∷◌, Option, none, some}
use scylla_k8s_example.Base.{String, if◌then◌else◌}
use scylla_k8s_example.Exec.{Exc, Result, ok, raised, diverged, Call, Reply, Event, sent, Env, St}
use scylla_k8s_example.Exec.{response, unreachable, request_error}
use scylla_k8s_example.Exec.{
  Exec, pure, raise, out_of_fuel, gets, set_api_host, set_addresses, ◌>>=◌, continue, handle,
}
use scylla_k8s_example.Exec.{try_catch, maybe, emit, clock, send, received, for_each}

-- The second history is the first with events of `Q` added.
pub data Extends (Q : Event → Type 0) (t : List Event) : List Event → Type 0 where
  same : Extends Q t t
  more : {ev : Event} {u : List Event} → Q ev → Extends Q t u → Extends Q t (ev ∷ u)

pub Extends-trans :
    {Q : Event → Type 0} {t u v : List Event} → Extends Q t u → Extends Q u v → Extends Q t v
Extends-trans p same = p
Extends-trans p (more q r) = more q (Extends-trans p r)

pub Extends-mono :
    {Q R : Event → Type 0} {t u : List Event}
    → ((ev : Event) → Q ev → R ev)
    → Extends Q t u
    → Extends R t u
Extends-mono f same = same
Extends-mono f (more {ev} q r) = more (f ev q) (Extends-mono f r)

pub record Emits {A : Type 0} (Q : Event → Type 0) (m : Exec A) : Type 0 where
  pub at : (e : Env) (s : St) → Extends Q s.trace (m e s).1.trace

module _ {A : Type 0} {Q : Event → Type 0} where
  pub Emits-pure : (a : A) → Emits Q (pure a)
  unfolding pure
  Emits-pure a = record { at = λ e s. same }

  pub Emits-raise : (x : Exc) → Emits Q (raise {A = A} x)
  unfolding raise
  Emits-raise x = record { at = λ e s. same }

  pub Emits-out_of_fuel : Emits Q (out_of_fuel {A = A})
  unfolding out_of_fuel
  Emits-out_of_fuel = record { at = λ e s. same }

  pub Emits-gets : (f : St → A) → Emits Q (gets f)
  unfolding gets
  Emits-gets f = record { at = λ e s. same }

  pub Emits-if : (b : Bool) {m n : Exec A} → Emits Q m → Emits Q n → Emits Q (if b then m else n)
  Emits-if true km kn = km
  Emits-if false km kn = kn

  pub Emits-maybe :
      {B : Type 0} (o : Option B) {n : Exec A} {f : B → Exec A}
      → Emits Q n
      → ((b : B) → Emits Q (f b))
      → Emits Q (maybe o n f)
  unfolding maybe
  Emits-maybe none kn kf = kn
  Emits-maybe (some b) kn kf = kf b

  handled :
      (r : Result A) (catches : Exc → Bool) {h : Exc → Exec A}
      → ((x : Exc) → Emits Q (h x))
      → Emits Q (handle r catches h)
  handled (ok a) catches kh = Emits-pure a
  handled diverged catches kh = Emits-out_of_fuel
  handled (raised x) catches kh = Emits-if (catches x) (kh x) (Emits-raise x)

  pub Emits-try_catch :
      (catches : Exc → Bool) {m : Exec A} {h : Exc → Exec A}
      → Emits Q m
      → ((x : Exc) → Emits Q (h x))
      → Emits Q (try_catch catches m h)
  unfolding try_catch
  Emits-try_catch catches {m} km kh = record {
    at = λ e s. let (r, s') = m e s in Extends-trans (km.at e s) ((handled r catches kh).at e s');
  }

module _ {A B : Type 0} {Q : Event → Type 0} where
  continued : (r : Result A) {f : A → Exec B} → ((a : A) → Emits Q (f a)) → Emits Q (continue r f)
  continued (ok a) kf = kf a
  continued (raised x) kf = Emits-raise x
  continued diverged kf = Emits-out_of_fuel

  pub Emits-bind :
      {m : Exec A} {f : A → Exec B} → Emits Q m → ((a : A) → Emits Q (f a)) → Emits Q (m >>= f)
  unfolding ◌>>=◌
  Emits-bind {m} km kf = record {
    at = λ e s. let (r, s') = m e s in Extends-trans (km.at e s) ((continued r kf).at e s');
  }

module _ {Q : Event → Type 0} where
  pub Emits-emit : (ev : Event) → Q ev → Emits Q (emit ev)
  unfolding emit
  Emits-emit ev q = record { at = λ e s. more q same }

  pub Emits-clock : Emits Q clock
  unfolding clock
  Emits-clock = record { at = λ e s. same }

  pub Emits-set_api_host : (id : String) (host : Option String) → Emits Q (set_api_host id host)
  unfolding set_api_host
  Emits-set_api_host id host = record { at = λ e s. same }

  pub Emits-set_addresses : (id : String) (l : List String) → Emits Q (set_addresses id l)
  unfolding set_addresses
  Emits-set_addresses id l = record { at = λ e s. same }

  Emits-received : (r : Reply) → Emits Q (received r)
  Emits-received (response r) = Emits-pure r
  Emits-received (unreachable m) = Emits-raise (request_error m)

  pub Emits-send : (c : Call) → ((r : Reply) → Q (sent c r)) → Emits Q (send c)
  unfolding send
  Emits-send c q = record {
    at = λ e s.
        let r = e.reply s.trace c in Extends-trans (more (q r) same) ((Emits-received r).at e _);
  }

  pub Emits-for_each :
      {A : Type 0} (xs : List A) {body : A → Exec Unit}
      → ((x : A) → Emits Q (body x))
      → Emits Q (for_each xs body)
  unfolding for_each
  Emits-for_each [] kb = Emits-pure tt
  Emits-for_each (x ∷ xs) kb = Emits-bind (kb x) (λ _. Emits-for_each xs kb)

pub ruleset emits_rules = (
  Emits-pure, Emits-raise, Emits-out_of_fuel, Emits-gets, Emits-if, Emits-maybe, Emits-try_catch,
  Emits-bind, Emits-emit, Emits-clock, Emits-for_each, Emits-set_api_host, Emits-set_addresses,
)

-- The growth of the history in one run.
pub Extends-run :
    {A : Type 0} {Q : Event → Type 0} {m : Exec A}
    → Emits Q m
    → (e : Env) (s : St) {r : Result A} {s' : St} → m e s ≡ (r, s')
    → Extends Q s.trace s'.trace
Extends-run {A} {Q} k e s h =
    subst (λ (p : Result A × St). Extends Q s.trace p.1.trace) h (k.at e s)

abbrev pub Anything : Event → Type 0
Anything ev = Unit
