-- ===== src/Script/Clock.antt =====
-- The clock along a run.
use scylla_k8s_example.Base.{
  ℕ, ◌+◌, ◌*◌, ◌≤◌, String, Bool, true, false, Option, none, some, List, [], ◌∷◌, ◌++◌, arith,
  if◌then◌else◌,
}
use scylla_k8s_example.Script.{
  Value, Event, executed, slept, History, Reply, rows, failure, World, Outcome, ok, raised, exited,
  Script, pure, raise, exit, continue, ◌>>=◌, handle, catch, attempt, maybe, emit, answered,
  execute, unless_raised, prepare,
}

-- What `datetime.now()` and `time.sleep()` promise: the clock does not go back, and a sleep takes its
-- time. The clock counts microseconds and a sleep milliseconds.
pub record Ticks (w : World) : Type 0 where
  pub onward : (h : History) (ev : Event) → w.now h ≤ w.now (h ++ (ev ∷ []))
  pub sleeps : (h : History) (n : ℕ) → w.now h + n * 1000 ≤ w.now (h ++ (slept n ∷ []))

-- The clock does not go back over a run.
pub record Onward {A : Type 0} (w : World) (m : Script A) : Type 0 where
  pub at : (h : History) → w.now h ≤ w.now (m w h).1

module _ {A : Type 0} {w : World} where
  pub Onward-pure : (a : A) → Onward w (pure a)
  unfolding pure
  Onward-pure a = record { at = λ h. omega arith }

  pub Onward-raise : (m : String) → Onward w (raise {A = A} m)
  unfolding raise
  Onward-raise m = record { at = λ h. omega arith }

  pub Onward-exit : (code : ℕ) → Onward w (exit {A = A} code)
  unfolding exit
  Onward-exit code = record { at = λ h. omega arith }

  pub Onward-if :
      (b : Bool) {m n : Script A} → Onward w m → Onward w n → Onward w (if b then m else n)
  Onward-if true km kn = km
  Onward-if false km kn = kn

  pub Onward-maybe :
      {B : Type 0} (o : Option B) {n : Script A} {f : B → Script A}
      → Onward w n
      → ((b : B) → Onward w (f b))
      → Onward w (maybe o n f)
  unfolding maybe
  Onward-maybe none kn kf = kn
  Onward-maybe (some b) kn kf = kf b

  caught :
      (r : Outcome A) {f : String → Script A} (h : History)
      → ((x : String) → Onward w (f x))
      → w.now h ≤ w.now (handle r f w h).1
  unfolding pure exit
  caught (ok a) h kf = omega arith
  caught (raised m) h kf = (kf m).at h
  caught (exited code) h kf = omega arith

  pub Onward-catch :
      {m : Script A} {f : String → Script A}
      → Onward w m
      → ((x : String) → Onward w (f x))
      → Onward w (catch m f)
  unfolding catch
  Onward-catch {m} km kf = record {
    at = λ h. let (r, h1) = m w h in omega (arith, km.at h, caught r h1 kf);
  }

  pub Onward-attempt : {m : Script A} → Onward w m → Onward w (attempt m)
  unfolding attempt pure
  Onward-attempt km = record { at = λ h. km.at h }

module _ {A B : Type 0} {w : World} where
  continued_on :
      (r : Outcome A) {f : A → Script B} (h : History)
      → ((a : A) → Onward w (f a))
      → w.now h ≤ w.now (continue r f w h).1
  unfolding raise exit
  continued_on (ok a) h kf = (kf a).at h
  continued_on (raised m) h kf = omega arith
  continued_on (exited code) h kf = omega arith

  pub Onward-bind :
      {m : Script A} {f : A → Script B}
      → Onward w m
      → ((a : A) → Onward w (f a))
      → Onward w (m >>= f)
  unfolding ◌>>=◌
  Onward-bind {m} km kf = record {
    at = λ h. let (r, h1) = m w h in omega (arith, km.at h, continued_on r h1 kf);
  }

module _ {w : World} (c : Ticks w) where
  pub Onward-emit : (ev : Event) → Onward w (emit ev)
  unfolding emit
  Onward-emit ev = record { at = λ h. c.onward h ev }

  answered_on : (r : Reply) (h : History) → w.now h ≤ w.now (answered r w h).1
  unfolding pure raise
  answered_on (rows l) h = omega arith
  answered_on (failure m) h = omega arith

  pub Onward-execute : (s : String) (values : List Value) → Onward w (execute s values)
  unfolding execute
  Onward-execute s values = record {
    at = λ h. omega (
      arith,
      c.onward h (executed s values),
      answered_on (w.answer h s values) (h ++ (executed s values ∷ [])),
    );
  }

  prepared_on : (o : Option String) (h : History) → w.now h ≤ w.now (unless_raised o w h).1
  unfolding pure raise
  prepared_on none h = omega arith
  prepared_on (some m) h = omega arith

  pub Onward-prepare : (s : String) → Onward w (prepare s)
  unfolding prepare
  Onward-prepare s = record { at = λ h. prepared_on (w.unprepared h s) h }

pub ruleset onward_rules = (
  Onward-pure, Onward-raise, Onward-exit, Onward-if, Onward-maybe, Onward-catch, Onward-attempt,
  Onward-bind,
)
