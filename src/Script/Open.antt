-- ===== src/Script/Open.antt =====
-- Runs that close each session and cluster that they open, whatever fails.
use scylla_k8s_example.Base.{
  ℕ, ◌+◌, ◌≡◌, refl, sym, subst, String, Bool, true, false, Option, none, some, List, [], ◌∷◌, ◌++◌,
  arith,
}
use scylla_k8s_example.Base.{if◌then◌else◌}
use scylla_k8s_example.Script.{
  Value, Target, Event, opened, session_closed, cluster_closed, printed, logged, slept, History,
  Reply, rows, failure, World, Outcome, ok, raised, exited, Script,
}
use scylla_k8s_example.Script.{pure, raise, exit, continue, ◌>>=◌, handle, catch, finish, finally}
use scylla_k8s_example.Connection.{Line}
use scylla_k8s_example.Script.{
  emit, now, unless, connect_to, execute_concurrent, answered, execute, prepare, attempt, maybe,
}
use scylla_k8s_example.Script.{
  unless_raised, close_session, close_cluster, for_each, close_quietly, with_session,
}

abbrev pub opens : Event → ℕ
opens (opened t) = 1
opens ev = 0

abbrev pub closes_session : Event → ℕ
closes_session session_closed = 1
closes_session ev = 0

abbrev pub closes_cluster : Event → ℕ
closes_cluster cluster_closed = 1
closes_cluster ev = 0

pub count_by : (Event → ℕ) → History → ℕ
count_by f [] = 0
count_by f (ev ∷ h) = f ev + count_by f h

count_by-append :
    (f : Event → ℕ) (g h : History) → count_by f (g ++ h) ≡ count_by f g + count_by f h
unfolding count_by
count_by-append f [] h = omega arith
count_by-append f (ev ∷ g) h = omega (arith, count_by-append f g h)

pub count_by-last :
    (f : Event → ℕ) (h : History) (ev : Event) → count_by f (h ++ (ev ∷ [])) ≡ count_by f h + f ev
unfolding count_by
count_by-last f h ev = omega (arith, count_by-append f h (ev ∷ []))

-- From one history to the next, as many sessions and clusters are closed as are opened.
pub record Level (h h' : History) : Type 0 where
  pub sessions :
      count_by opens h' + count_by closes_session h ≡ count_by opens h + count_by closes_session h'
  pub clusters :
      count_by opens h' + count_by closes_cluster h ≡ count_by opens h + count_by closes_cluster h'

Level-refl : (h : History) → Level h h
Level-refl h = record { sessions = omega arith; clusters = omega arith }

Level-trans : {g h k : History} → Level g h → Level h k → Level g k
Level-trans p q = record {
  sessions = omega (arith, p.sessions, q.sessions);
  clusters = omega (arith, p.clusters, q.clusters);
}

abbrev Neutral : Event → Type 0
Neutral ev = (opens ev ≡ 0) × (closes_session ev ≡ 0) × (closes_cluster ev ≡ 0)

Level-event : (h : History) (ev : Event) → Neutral ev → Level h (h ++ (ev ∷ []))
Level-event h ev (p, q, r) = record {
  sessions = omega (arith, count_by-last opens h ev, count_by-last closes_session h ev, p, q);
  clusters = omega (arith, count_by-last opens h ev, count_by-last closes_cluster h ev, p, r);
}

-- The run leaves nothing open, also when it fails.
pub record Closes {A : Type 0} (m : Script A) : Type 0 where
  pub at : (w : World) (h : History) → Level h (m w h).1

module _ {A : Type 0} where
  pub Closes-pure : (a : A) → Closes (pure a)
  unfolding pure
  Closes-pure a = record { at = λ w h. Level-refl h }

  pub Closes-raise : (m : String) → Closes (raise {A = A} m)
  unfolding raise
  Closes-raise m = record { at = λ w h. Level-refl h }

  pub Closes-exit : (code : ℕ) → Closes (exit {A = A} code)
  unfolding exit
  Closes-exit code = record { at = λ w h. Level-refl h }

  pub Closes-if : (b : Bool) {m n : Script A} → Closes m → Closes n → Closes (if b then m else n)
  Closes-if true km kn = km
  Closes-if false km kn = kn

  handled :
      (r : Outcome A) {f : String → Script A} → ((m : String) → Closes (f m)) → Closes (handle r f)
  handled (ok a) kf = Closes-pure a
  handled (raised m) kf = kf m
  handled (exited code) kf = Closes-exit code

  pub Closes-catch :
      {m : Script A} {f : String → Script A}
      → Closes m
      → ((x : String) → Closes (f x))
      → Closes (catch m f)
  unfolding catch
  Closes-catch {m} km kf = record {
    at = λ w h. let (r, h') = m w h in Level-trans (km.at w h) ((handled r kf).at w h');
  }

  finished : (r : Outcome A) → Closes (finish r)
  finished (ok a) = Closes-pure a
  finished (raised m) = Closes-raise m
  finished (exited code) = Closes-exit code

module _ {A B : Type 0} where
  continued : (r : Outcome A) {f : A → Script B} → ((a : A) → Closes (f a)) → Closes (continue r f)
  continued (ok a) kf = kf a
  continued (raised m) kf = Closes-raise m
  continued (exited code) kf = Closes-exit code

  pub Closes-bind :
      {m : Script A} {f : A → Script B} → Closes m → ((a : A) → Closes (f a)) → Closes (m >>= f)
  unfolding ◌>>=◌
  Closes-bind {m} km kf = record {
    at = λ w h. let (r, h') = m w h in Level-trans (km.at w h) ((continued r kf).at w h');
  }

pub Closes-print : (line : String) → Closes (emit (printed line))
unfolding emit
Closes-print line = record { at = λ w h. Level-event h _ (refl, refl, refl) }

pub Closes-log : (line : Line) → Closes (emit (logged line))
unfolding emit
Closes-log line = record { at = λ w h. Level-event h _ (refl, refl, refl) }

pub Closes-sleep : (n : ℕ) → Closes (emit (slept n))
unfolding emit
Closes-sleep n = record { at = λ w h. Level-event h _ (refl, refl, refl) }

pub Closes-now : Closes now
unfolding now
Closes-now = record { at = λ w h. Level-refl h }

answers : (r : Reply) → Closes (answered r)
answers (rows l) = Closes-pure l
answers (failure m) = Closes-raise m

pub Closes-execute : (s : String) (values : List Value) → Closes (execute s values)
unfolding execute
Closes-execute s values = record {
  at = λ w h.
      Level-trans (Level-event h _ (refl, refl, refl)) ((answers (w.answer h s values)).at w _);
}

pub Closes-prepare : (s : String) → Closes (prepare s)
unfolding prepare
Closes-prepare s = record { at = λ w h. prepared (w.unprepared h s) w h }
  where
    prepared : (o : Option String) (w : World) (h : History) → Level h (unless_raised o w h).1
    prepared none w h = Level-refl h
    prepared (some m) w h = Level-refl h

pub Closes-attempt : {A : Type 0} {m : Script A} → Closes m → Closes (attempt m)
unfolding attempt
Closes-attempt km = record { at = λ w h. km.at w h }

pub Closes-maybe :
    {A B : Type 0} (o : Option B) {n : Script A} {f : B → Script A}
    → Closes n
    → ((b : B) → Closes (f b))
    → Closes (maybe o n f)
unfolding maybe
Closes-maybe none kn kf = kn
Closes-maybe (some b) kn kf = kf b

pub Closes-for_each :
    {A : Type 0} (xs : List A) {body : A → Script Unit}
    → ((x : A) → Closes (body x))
    → Closes (for_each xs body)
unfolding for_each
Closes-for_each [] kb = Closes-pure tt
Closes-for_each (x ∷ xs) kb = Closes-bind (kb x) (λ _. Closes-for_each xs kb)

-- An exception of a shutdown is passed over.
passed_over :
    (o : Option String) (w : World) (h : History)
    → (let (r, h') = unless_raised o w h in handle r (λ _. pure tt) w h') ≡ (ok tt, h)
unfolding pure raise
passed_over none w h = refl
passed_over (some m) w h = refl

closes_both :
    (w : World) (h : History)
    → close_quietly w h ≡ (ok tt, (h ++ (session_closed ∷ [])) ++ (cluster_closed ∷ []))
unfolding close_quietly catch close_session close_cluster ◌>>=◌
closes_both w h =
    let first = h ++ (session_closed ∷ []) in
    rw (passed_over (w.shutdown_fails h) w first)
      (passed_over (w.shutdown_fails first) w (first ++ (cluster_closed ∷ [])))

module _ {A : Type 0} where
  finished_at : (r : Outcome A) (w : World) (h : History) → (finish r w h).1 ≡ h
  unfolding pure raise exit
  finished_at (ok a) w h = refl
  finished_at (raised m) w h = refl
  finished_at (exited code) w h = refl

  body_then :
      (m : Script A) (w : World) (h : History)
      → (finally m close_quietly w h).1
        ≡ ((m w h).1 ++ (session_closed ∷ [])) ++ (cluster_closed ∷ [])
  unfolding finally ◌>>=◌
  body_then m w h = rw (closes_both w (m w h).1) (finished_at (m w h).0 w _)

  opened_block :
      (o : Option String) (t : Target) (m : Script A) (w : World) (h : History)
      → Closes m
      → Level h ((unless o (opened t) >>= λ _. finally m close_quietly) w h).1
  unfolding emit raise ◌>>=◌
  opened_block (some x) t m w h km = Level-refl h
  opened_block none t m w h km =
      let start = h ++ (opened t ∷ []) in
      let done = (m w start).1 in
      let inside = km.at w start in
      subst (λ k. Level h k) (sym (body_then m w start))
        (record {
          sessions = omega (
            arith,
            inside.sessions,
            count_by-last opens h (opened t),
            count_by-last closes_session h (opened t),
            count_by-last opens done session_closed,
            count_by-last closes_session done session_closed,
            count_by-last opens (done ++ (session_closed ∷ [])) cluster_closed,
            count_by-last closes_session (done ++ (session_closed ∷ [])) cluster_closed,
          );
          clusters = omega (
            arith,
            inside.clusters,
            count_by-last opens h (opened t),
            count_by-last closes_cluster h (opened t),
            count_by-last opens done session_closed,
            count_by-last closes_cluster done session_closed,
            count_by-last opens (done ++ (session_closed ∷ [])) cluster_closed,
            count_by-last closes_cluster (done ++ (session_closed ∷ [])) cluster_closed,
          );
        })

  pub Closes-with_session : (t : Target) {m : Script A} → Closes m → Closes (with_session t m)
  unfolding with_session connect_to ◌>>=◌
  Closes-with_session t {m} km = record { at = λ w h. opened_block (w.refuses h t) t m w h km }

pub Closes-execute_concurrent :
    (s : String) (l : List (List Value)) → Closes (execute_concurrent s l)
unfolding execute_concurrent
Closes-execute_concurrent s [] = Closes-pure []
Closes-execute_concurrent s (values ∷ l) =
    let rest = Closes-execute_concurrent s l in
    Closes-bind (Closes-execute s values) (λ _. Closes-bind rest (λ results. Closes-pure _))

pub ruleset closes_rules = (
  Closes-pure, Closes-raise, Closes-exit, Closes-if, Closes-catch, Closes-bind, Closes-print,
  Closes-log, Closes-sleep, Closes-now, Closes-execute, Closes-for_each, Closes-with_session,
  Closes-prepare, Closes-attempt, Closes-maybe,
)
