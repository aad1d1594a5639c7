-- ===== src/Script/Sends.antt =====
-- Which statements a run sends.
use scylla_k8s_example.Base.{
  ℕ, ◌≡◌, refl, sym, subst, ap, ◌∙◌, String, Bool, true, false, Option, none, some, List, [], ◌∷◌,
  ◌++◌,
}
use scylla_k8s_example.Base.{if◌then◌else◌}
use mathlib.Core.List.{append-nil, append_assoc}
use scylla_k8s_example.Connection.{Line}
use scylla_k8s_example.Script.{
  Value, Target, Event, opened, used, executed, session_closed, cluster_closed, printed, logged,
  slept, History, Reply, rows, failure, World, Outcome, ok, raised, exited, Script,
}
use scylla_k8s_example.Script.{pure, raise, exit, continue, ◌>>=◌, handle, catch}
use scylla_k8s_example.Script.{
  emit, now, unless, connect_to, use_keyspace, answered, execute, run, print, sleep_millis, maybe,
  prepare,
}
use scylla_k8s_example.Script.{unless_raised, close_session, close_cluster, for_each}

abbrev pub Statement : Type 0
Statement = String × List Value

-- What is looked at in a statement: nothing, or some values.
abbrev pub View : Type 0 → Type 0
View X = String → List Value → List X

-- The whole statement.
abbrev pub whole : View Statement
whole s values = (s, values) ∷ []

module _ {X : Type 0} (view : View X) where
  abbrev pub seen_of : Event → List X
  seen_of (executed s values) = view s values
  seen_of ev = []

  -- What the view has of a history, in order.
  unfoldable pub seen : History → List X
  seen [] = []
  seen (ev ∷ h) = seen_of ev ++ seen h

  seen-append : (g h : History) → seen (g ++ h) ≡ seen g ++ seen h
  unfolding seen
  seen-append [] h = refl
  seen-append (ev ∷ g) h =
      ap (λ l. seen_of ev ++ l) (seen-append g h)
      ∙ sym (append_assoc (seen_of ev) (seen g) (seen h))

  seen-last : (h : History) (ev : Event) → seen (h ++ (ev ∷ [])) ≡ seen h ++ seen_of ev
  unfolding seen
  seen-last h ev = seen-append h (ev ∷ []) ∙ ap (λ l. seen h ++ l) (append-nil (seen_of ev))

-- All of the list if the run returns, and a beginning of it if it fails.
abbrev pub Whole : {A X : Type 0} → Outcome A → List X → List X → Type 0
Whole (ok a) p l = p ≡ l
Whole {X = X} (raised m) p l = (q : List X) × (p ++ q ≡ l)
Whole {X = X} (exited code) p l = (q : List X) × (p ++ q ≡ l)

Whole-append :
    {A X : Type 0} (r : Outcome A) (l q k : List X) → Whole r q k → Whole r (l ++ q) (l ++ k)
Whole-append (ok a) l q k same = ap (λ x. l ++ x) same
Whole-append (raised m) l q k (rest, both) = (rest, append_assoc l q rest ∙ ap (λ x. l ++ x) both)
Whole-append (exited code) l q k (rest, both) =
    (rest, append_assoc l q rest ∙ ap (λ x. l ++ x) both)

abbrev pub flat : {A X : Type 0} → (A → List X) → List A → List X
flat f [] = []
flat f (x ∷ xs) = f x ++ flat f xs

module _ {X : Type 0} (view : View X) where
  abbrev pub Ran : {A : Type 0} → Outcome A → History → History → List X → Type 0
  Ran r h h' l = (p : List X) × (seen view h' ≡ seen view h ++ p) × Whole r p l

  -- The run sends these statements, in this order, until it is done or fails.
  pub record Sends {A : Type 0} (m : Script A) (l : List X) : Type 0 where
    pub at : (w : World) (h : History) → (let (r, h') = m w h in Ran r h h' l)

  module _ {A : Type 0} where
    pub Sends-pure : (a : A) → Sends (pure a) []
    unfolding pure
    Sends-pure a = record { at = λ w h. ([], sym (append-nil (seen view h)), refl) }

    pub Sends-raise : (m : String) (l : List X) → Sends (raise {A = A} m) l
    unfolding raise
    Sends-raise m l = record { at = λ w h. ([], sym (append-nil (seen view h)), (l, refl)) }

    pub Sends-exit : (code : ℕ) (l : List X) → Sends (exit {A = A} code) l
    unfolding exit
    Sends-exit code l = record { at = λ w h. ([], sym (append-nil (seen view h)), (l, refl)) }

  module _ {A B : Type 0} where
    next :
        (r : Outcome A) (f : A → Script B) (w : World) (h h1 : History) (l k : List X)
        → Ran r h h1 l
        → ((a : A) → Sends (f a) k)
        → (let (r', h') = continue r f w h1 in Ran r' h h' (l ++ k))
    unfolding raise exit
    next (ok a) f w h h1 l k (p, grown, all) kf =
        let (r', h') = f a w h1 in
        let (q, more, rest) = (kf a).at w h1 in
        (
          l ++ q,
          more
              ∙ ap (λ x. x ++ q) (grown ∙ ap (λ x. seen view h ++ x) all)
              ∙ append_assoc (seen view h) l q,
          Whole-append r' l q k rest,
        )
    next (raised m) f w h h1 l k (p, grown, (q, both)) kf =
        (p, grown, (q ++ k, sym (append_assoc p q k) ∙ ap (λ x. x ++ k) both))
    next (exited code) f w h h1 l k (p, grown, (q, both)) kf =
        (p, grown, (q ++ k, sym (append_assoc p q k) ∙ ap (λ x. x ++ k) both))

    pub Sends-bind :
        {m : Script A} {f : A → Script B} {l k : List X}
        → Sends m l
        → ((a : A) → Sends (f a) k)
        → Sends (m >>= f) (l ++ k)
    unfolding ◌>>=◌
    Sends-bind {m} {f} {l} {k} km kf = record {
      at = λ w h. let (r, h1) = m w h in next r f w h h1 l k (km.at w h) kf;
    }

  -- An event that is no statement.
  Sends-event : (ev : Event) → seen_of view ev ≡ [] → Sends (emit ev) []
  unfolding emit
  Sends-event ev silent = record {
    at = λ w h. ([], seen-last view h ev ∙ ap (λ l. seen view h ++ l) silent, refl);
  }

  pub Sends-print : (line : String) → Sends (print line) []
  Sends-print line = Sends-event (printed line) refl

  pub Sends-log : (line : Line) → Sends (emit (logged line)) []
  Sends-log line = Sends-event (logged line) refl

  pub Sends-sleep_millis : (n : ℕ) → Sends (sleep_millis n) []
  Sends-sleep_millis n = Sends-event (slept n) refl

  pub Sends-now : Sends now []
  unfolding now
  Sends-now = record { at = λ w h. ([], sym (append-nil (seen view h)), refl) }

  Ran-unless :
      (o : Option String) (ev : Event) (w : World) (h : History)
      → seen_of view ev ≡ []
      → (let (r, h') = unless o ev w h in Ran r h h' [])
  Ran-unless none ev w h silent = (Sends-event ev silent).at w h
  Ran-unless (some m) ev w h silent = (Sends-raise m []).at w h

  pub Sends-connect_to : (t : Target) → Sends (connect_to t) []
  unfolding connect_to
  Sends-connect_to t = record { at = λ w h. Ran-unless (w.refuses h t) (opened t) w h refl }

  pub Sends-use_keyspace : (ks : String) → Sends (use_keyspace ks) []
  unfolding use_keyspace
  Sends-use_keyspace ks = record { at = λ w h. Ran-unless (w.no_keyspace h ks) (used ks) w h refl }

  Ran-execute :
      (r : Reply) (s : String) (values : List Value) (w : World) (h : History)
      → (let (r', h') = answered r w (h ++ (executed s values ∷ [])) in Ran r' h h' (view s values))
  unfolding pure raise
  Ran-execute (rows l) s values w h = (view s values, seen-last view h (executed s values), refl)
  Ran-execute (failure m) s values w h =
      (view s values, seen-last view h (executed s values), ([], append-nil (view s values)))

  pub Sends-execute : (s : String) (values : List Value) → Sends (execute s values) (view s values)
  unfolding execute
  Sends-execute s values = record { at = λ w h. Ran-execute (w.answer h s values) s values w h }

  pub Sends-run : (s : String) (values : List Value) → Sends (run s values) (view s values)
  Sends-run s values =
      subst (Sends (run s values)) (append-nil (view s values))
        (Sends-bind (Sends-execute s values) (λ _. Sends-pure tt))

  Ran-close :
      (o : Option String) (ev : Event) (w : World) (h : History)
      → seen_of view ev ≡ []
      → (let (r, h') = unless_raised o w (h ++ (ev ∷ [])) in Ran r h h' [])
  unfolding pure raise
  Ran-close none ev w h silent = ([], seen-last view h ev ∙ ap (λ l. seen view h ++ l) silent, refl)
  Ran-close (some m) ev w h silent =
      ([], seen-last view h ev ∙ ap (λ l. seen view h ++ l) silent, ([], refl))

  pub Sends-close_session : Sends close_session []
  unfolding close_session
  Sends-close_session = record {
    at = λ w h. Ran-close (w.shutdown_fails h) session_closed w h refl;
  }

  pub Sends-close_cluster : Sends close_cluster []
  unfolding close_cluster
  Sends-close_cluster = record {
    at = λ w h. Ran-close (w.shutdown_fails h) cluster_closed w h refl;
  }

  pub Sends-for_each :
      {A : Type 0} (xs : List A) {body : A → Script Unit} (f : A → List X)
      → ((x : A) → Sends (body x) (f x))
      → Sends (for_each xs body) (flat f xs)
  unfolding for_each
  Sends-for_each [] f kb = Sends-pure tt
  Sends-for_each (x ∷ xs) f kb = Sends-bind (kb x) (λ _. Sends-for_each xs f kb)

  pub Sends-maybe :
      {A B : Type 0} (o : Option B) {n : Script A} {f : B → Script A} {l : List X}
      → Sends n l
      → ((b : B) → Sends (f b) l)
      → Sends (maybe o n f) l
  unfolding maybe
  Sends-maybe none kn kf = kn
  Sends-maybe (some b) kn kf = kf b

  pub Sends-if :
      {A : Type 0} (b : Bool) {m n : Script A} {l : List X}
      → Sends m l
      → Sends n l
      → Sends (if b then m else n) l
  Sends-if true km kn = km
  Sends-if false km kn = kn

  pub Sends-when :
      (b : Bool) {m : Script Unit} {l : List X}
      → Sends m l
      → Sends (if b then m else pure tt) (if b then l else [])
  Sends-when true km = km
  Sends-when false km = Sends-pure tt

  Ran-prepare :
      (o : Option String) (w : World) (h : History)
      → (let (r, h') = unless_raised o w h in Ran r h h' [])
  unfolding pure raise
  Ran-prepare none w h = ([], sym (append-nil (seen view h)), refl)
  Ran-prepare (some m) w h = ([], sym (append-nil (seen view h)), ([], refl))

  pub Sends-prepare : (s : String) → Sends (prepare s) []
  unfolding prepare
  Sends-prepare s = record { at = λ w h. Ran-prepare (w.unprepared h s) w h }

  -- A loop without statements.
  pub Sends-silent :
      {A : Type 0} (xs : List A) {body : A → Script Unit}
      → ((x : A) → Sends (body x) [])
      → Sends (for_each xs body) []
  unfolding for_each
  Sends-silent [] kb = Sends-pure tt
  Sends-silent (x ∷ xs) kb = Sends-bind (kb x) (λ _. Sends-silent xs kb)

  -- Steps of which the view sees nothing.
  pub silent_bind :
      {A B : Type 0} {m : Script A} {f : A → Script B}
      → Sends m []
      → ((a : A) → Sends (f a) [])
      → Sends (m >>= f) []
  silent_bind km kf = Sends-bind km kf

  Ran-handle :
      {A : Type 0} (r : Outcome A) (f : String → Script A) (w : World) (h h1 : History)
      → Ran r h h1 []
      → ((x : String) → Sends (f x) [])
      → (let (r', h') = handle r f w h1 in Ran r' h h' [])
  unfolding pure exit
  Ran-handle (ok a) f w h h1 k kf = k
  Ran-handle (exited code) f w h h1 k kf = k
  Ran-handle (raised m) f w h h1 ([], grown, _) kf =
      let (q, more, rest) = (kf m).at w h1 in
      (q, more ∙ ap (λ l. l ++ q) (grown ∙ append-nil (seen view h)), rest)
  Ran-handle (raised m) f w h h1 (x ∷ p, grown, (q, both)) kf = cc both

  pub silent_catch :
      {A : Type 0} {m : Script A} {f : String → Script A}
      → Sends m []
      → ((x : String) → Sends (f x) [])
      → Sends (catch m f) []
  unfolding catch
  silent_catch {A} {m} {f} km kf = record {
    at = λ w h. let (r, h1) = m w h in Ran-handle r f w h h1 (km.at w h) kf;
  }

pub ruleset silent_rules = (
  Sends-pure, Sends-raise, Sends-exit, silent_bind, Sends-if, Sends-maybe, silent_catch,
  Sends-print, Sends-log, Sends-sleep_millis, Sends-now, Sends-prepare, Sends-connect_to,
  Sends-use_keyspace, Sends-close_session, Sends-close_cluster, Sends-silent,
)
