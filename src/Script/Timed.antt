-- ===== src/Script/Timed.antt =====
-- Which statements a run sends that reads the clock and goes by it.
use mathlib.Core.List.{append-nil}
use scylla_k8s_example.Base.{ℕ, refl, ap, ◌∙◌, List, [], ◌∷◌, ◌++◌}
use scylla_k8s_example.Script.{
  World, History, Outcome, ok, raised, exited, Script, raise, exit, continue, now, ◌>>=◌,
}
use scylla_k8s_example.Script.Sends.{View, seen, Ran, Sends}

module _ {X : Type 0} (view : View X) where
  -- The run sends the statements for the time that the clock showed at some point, in this order,
  -- until it is done or fails.
  pub record SendsAt {A : Type 0} (m : Script A) (l : ℕ → List X) : Type 0 where
    pub at :
        (w : World) (h : History)
        → (t : History) × (let (r, h') = m w h in Ran view r h h' (l (w.now t)))

  pub SendsAt-now :
      {A : Type 0} {f : ℕ → Script A} (l : ℕ → List X)
      → ((t : ℕ) → Sends view (f t) (l t))
      → SendsAt (now >>= f) l
  unfolding now ◌>>=◌
  SendsAt-now l kf = record { at = λ w h. (h, (kf (w.now h)).at w h) }

  module _ {A B : Type 0} where
    after_silence :
        (r : Outcome A) (f : A → Script B) (l : ℕ → List X) (w : World) (h h1 : History)
        → Ran view r h h1 []
        → ((a : A) → SendsAt (f a) l)
        → (t : History) × (let (r', h') = continue r f w h1 in Ran view r' h h' (l (w.now t)))
    unfolding raise exit
    after_silence (ok a) f l w h h1 (p, grown, none_sent) kf =
        let (t, (q, more, rest)) = (kf a).at w h1 in
        let same = grown ∙ ap (λ x. seen view h ++ x) none_sent ∙ append-nil (seen view h) in
        (t, (q, more ∙ ap (λ x. x ++ q) same, rest))
    after_silence (raised m) f l w h h1 ([], grown, _) kf = (h, ([], grown, (l (w.now h), refl)))
    after_silence (raised m) f l w h h1 (x ∷ p, grown, (q, both)) kf = cc both
    after_silence (exited code) f l w h h1 ([], grown, _) kf = (h, ([], grown, (l (w.now h), refl)))
    after_silence (exited code) f l w h h1 (x ∷ p, grown, (q, both)) kf = cc both

    pub SendsAt-bind :
        {m : Script A} {f : A → Script B} (l : ℕ → List X)
        → Sends view m []
        → ((a : A) → SendsAt (f a) l)
        → SendsAt (m >>= f) l
    unfolding ◌>>=◌
    SendsAt-bind {m} {f} l km kf = record {
      at = λ w h. let (r, h1) = m w h in after_silence r f l w h h1 (km.at w h) kf;
    }
