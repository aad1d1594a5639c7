-- ===== src/Script/Blocks.antt =====
-- Which statements a block with a session of its own sends, and rows that are sent together.
use mathlib.Core.List.{append-nil}
use scylla_k8s_example.Base.{◌≡◌, subst, ap, ◌∙◌, String, Option, List, [], ◌∷◌, ◌++◌}
use scylla_k8s_example.Script.{
  Value, Target, World, History, Outcome, ok, raised, exited, Script, pure, raise, exit, continue,
  ◌>>=◌, finish, finally, execute_concurrent, close_quietly, with_session, maybe, configured,
}
use scylla_k8s_example.Script.Sends.{
  View, seen, Ran, Whole, flat, Sends, Sends-pure, Sends-raise, Sends-bind, Sends-execute,
  Sends-maybe, silent_rules, Sends-connect_to,
}
use scylla_k8s_example.Connection
use scylla_k8s_example.Script.Session.{Place, config_of, no_config, with_place}

pub Sends-execute_concurrent :
    {X : Type 0} (view : View X) (s : String) (l : List (List Value))
    → Sends view (execute_concurrent s l) (flat (view s) l)
unfolding execute_concurrent
Sends-execute_concurrent view s [] = Sends-pure view []
Sends-execute_concurrent view s (values ∷ l) = Sends-bind view (Sends-execute view s values) λ _.
    subst (Sends view _) (append-nil (flat (view s) l))
      (Sends-bind view (Sends-execute_concurrent view s l) (λ results. Sends-pure view _))

Sends-close_quietly : {X : Type 0} (view : View X) → Sends view close_quietly []
unfolding close_quietly
Sends-close_quietly view = search silent_rules depth 8

module _ {A X : Type 0} (view : View X) where
  -- Whatever the outcome, a beginning of the list has been sent.
  beginning : (r : Outcome A) (p l : List X) → Whole r p l → (q : List X) × (p ++ q ≡ l)
  beginning (ok a) p l same = ([], append-nil p ∙ same)
  beginning (raised m) p l k = k
  beginning (exited code) p l k = k

  finished :
      (r : Outcome A) (w : World) (h h1 : History) (l : List X)
      → Ran view r h h1 l
      → (let (r', h') = finish r w h1 in Ran view r' h h' l)
  unfolding pure raise exit
  finished (ok a) w h h1 l k = k
  finished (raised m) w h h1 l k = k
  finished (exited code) w h h1 l k = k

  -- A `finally` that sends nothing.
  closed :
      (r : Outcome A) (r2 : Outcome Unit) (w : World) (h h1 h2 : History) (l : List X)
      → Ran view r h h1 l
      → Ran view r2 h1 h2 []
      → (let (r', h') = continue r2 (λ _. finish r) w h2 in Ran view r' h h' l)
  unfolding raise exit
  closed r (ok u) w h h1 h2 l (p, grown, part) (q, more, none_sent) =
      finished r w h h2 l
        (p, more ∙ ap (λ x. seen view h1 ++ x) none_sent ∙ append-nil (seen view h1) ∙ grown, part)
  closed r (raised m) w h h1 h2 l (p, grown, part) ([], more, _) =
      (p, more ∙ append-nil (seen view h1) ∙ grown, beginning r p l part)
  closed r (raised m) w h h1 h2 l k (x ∷ q, more, (q', both)) = cc both
  closed r (exited code) w h h1 h2 l (p, grown, part) ([], more, _) =
      (p, more ∙ append-nil (seen view h1) ∙ grown, beginning r p l part)
  closed r (exited code) w h h1 h2 l k (x ∷ q, more, (q', both)) = cc both

  pub Sends-finally :
      {m : Script A} {f : Script Unit} {l : List X}
      → Sends view m l
      → Sends view f []
      → Sends view (finally m f) l
  unfolding finally ◌>>=◌
  Sends-finally {m} {f} {l} km kf = record {
    at = λ w h.
        let (r, h1) = m w h in
        let (r2, h2) = f w h1 in closed r r2 w h h1 h2 l (km.at w h) (kf.at w h1);
  }

  pub Sends-with_session :
      (t : Target) {body : Script A} {l : List X}
      → Sends view body l
      → Sends view (with_session t body) l
  unfolding with_session
  Sends-with_session t kb =
      Sends-bind view (Sends-connect_to view t) (λ _. Sends-finally kb (Sends-close_quietly view))

  with_target :
      (o : Option Connection.Config) (m : String) {body : Script A} {l : List X}
      → Sends view body l
      → Sends view (maybe o (raise m) (λ c. with_session (configured c) body)) l
  with_target o m {body} {l} kb =
      Sends-maybe view o (Sends-raise view m l) (λ c. Sends-with_session (configured c) kb)

  pub Sends-with_place :
      (p : Place) {body : Script A} {l : List X}
      → Sends view body l
      → Sends view (with_place p body) l
  unfolding with_place
  Sends-with_place p kb = with_target (config_of p) (no_config p) kb
