-- ===== src/Convert/Phases/Guards.antt =====
-- What the questions and the tests of a phase establish (sample_app/convert_to_tablets.py).
use scylla_k8s_example.Base.{
  ◌∙◌, ◌≡◌, refl, sym, ap, subst, String, ◌<>◌, List, [], ◌∷◌, Option, none, some,
}
use scylla_k8s_example.Base.{
  Bool, true, false, Bool-cases, inl, inr, ◌⊎◌, All, string_eq, ◌==◌, str_iff,
}
use scylla_k8s_example.Base.Text.{strip, lower_codes}
use mathlib.Core.Bool.{false≢true}
use scylla_k8s_example.Exec.{ok, Event, asked, Env, St, Exec}
use scylla_k8s_example.Exec.Emits.{Extends-run}
use scylla_k8s_example.Exec.Guarded.{Grows}
use scylla_k8s_example.Exec.Steps.{bind-ok, pure-ok, raise≢ok, Some, here, Some-grow, All-grow}
use scylla_k8s_example.Convert.Api.{Anything-Quiet}
use scylla_k8s_example.Convert.Nodes.{Node}
use scylla_k8s_example.Convert.Report.{is_yes, typed, ask, confirm}
use scylla_k8s_example.Convert.Restart.{require}
use scylla_k8s_example.Convert.Status.Evidence.{Reported, phrase_in-Reported}
use scylla_k8s_example.Convert.Phases.{is_done}
use scylla_k8s_example.Convert.Phases.Effects.{Emits-is_done}

-- The question was answered with yes.
pub data IsYes (prompt : String) : Event → Type 0 where
  yes :
      {line : String}
      → is_yes (lower_codes (strip line)) ≡ true
      → IsYes prompt (asked (prompt <> " [y/N] ") (some line))

-- The user agreed: by `-y`, or by answering the question.
abbrev pub Consent : Bool → String → List Event → Type 0
Consent assume_yes prompt t = (assume_yes ≡ true) ⊎ Some (IsYes prompt) t

pub Consent-Grows : (assume_yes : Bool) (prompt : String) → Grows (Consent assume_yes prompt)
Consent-Grows assume_yes prompt t u x (inl h) = inl h
Consent-Grows assume_yes prompt t u x (inr p) = inr (Some-grow x p)

typed-ok :
    (o : Option String) (e : Env) (s : St) {s' : St} {line : String}
    → typed o e s ≡ (ok line, s')
    → (o ≡ some line) × (s' ≡ s)
typed-ok none e s h = absurd (raise≢ok _ e s h)
typed-ok (some line) e s h =
    let (same_line, same_s) = pure-ok line e s h in (ap some same_line, same_s)

ask-ok :
    (prompt : String) (e : Env) (s : St) {s' : St} {line : String}
    → ask prompt e s ≡ (ok line, s')
    → s'.trace ≡ asked prompt (some line) ∷ s.trace
unfolding ask
ask-ok prompt e s h =
    let (o, same_s) = typed-ok _ e _ h in
    ap (λ (u : St). u.trace) same_s ∙ ap (λ l. asked prompt l ∷ s.trace) o

pub confirm-Consent :
    (prompt : String) (assume_yes : Bool) (e : Env) (s : St) {s' : St}
    → confirm prompt assume_yes e s ≡ (ok true, s')
    → Consent assume_yes prompt s'.trace
unfolding confirm
confirm-Consent prompt true e s h = inl refl
confirm-Consent prompt false e s {s'} h =
    let (terminal, s1, h1, h2) = bind-ok _ _ h in
    elim (Bool-cases terminal) [
      | inl y ↦
          let (line, s2, h3, h4) = bind-ok _ _ (rw y at h2) in
          let (is_y, same_s) = pure-ok _ e s2 h4 in
          inr (
            subst (λ t. Some (IsYes prompt) t)
              (sym (ap (λ (u : St). u.trace) same_s ∙ ask-ok _ e s1 h3)) (here (yes is_y)))
      | inr n ↦ absurd (raise≢ok _ e s1 (rw n at h2))
    ]

pub require-ok :
    (b : Bool) (m : Exec String) (e : Env) (s : St) {s' : St}
    → require b m e s ≡ (ok tt, s')
    → (b ≡ true) × (s' ≡ s)
unfolding require
require-ok true m e s h = (refl, (pure-ok tt e s h).1)
require-ok false m e s h = let (line, s1, h1, h2) = bind-ok _ _ h in absurd (raise≢ok _ e s1 h2)

-- A question whose refusal ends the run.
pub sure-Consent :
    (prompt : String) (assume_yes sure : Bool) (m : Exec String) (e : Env) (s : St) {s1 s' : St}
    → confirm prompt assume_yes e s ≡ (ok sure, s1)
    → require sure m e s1 ≡ (ok tt, s')
    → Consent assume_yes prompt s'.trace
sure-Consent prompt assume_yes sure m e s {s1} h h' =
    let (is_sure, same_s) = require-ok sure m e s1 h' in
    subst (λ (u : St). Consent assume_yes prompt u.trace) (sym same_s)
      (confirm-Consent prompt assume_yes e s (h ∙ ap (λ b. (ok b, s1)) is_sure))

-- The cluster has reported, for every keyspace of the list, that the node uses the mode.
abbrev pub AllReported : String → List String → Node → List Event → Type 0
AllReported want keyspaces n t = All (λ k. Reported want n.host_id k t) keyspaces

pub AllReported-Grows : (want : String) (l : List String) (n : Node) → Grows (AllReported want l n)
AllReported-Grows want l n t u x h =
    All-grow (λ k v. Reported want n.host_id k v) l (λ k. Some-grow x) h

-- A node that is skipped in phase 2 has been reported in every keyspace.
pub is_done-Reported :
    (peer n : Node) (e : Env) (l : List String) (b : Bool) (s : St) {s' : St}
    → is_done peer n l b e s ≡ (ok true, s')
    → (b ≡ true) × AllReported "tablets" l n s'.trace
unfolding is_done
is_done-Reported peer n e [] b s h = ((pure-ok b e s h).0, tt)
is_done-Reported peer n e (k ∷ l) b s h =
    let (phrase, s1, h1, h2) = bind-ok _ _ h in
    let (still, others) = is_done-Reported peer n e l _ s1 h2 in
    elim (Bool-cases (phrase == "uses tablets")) [
      | inl u ↦
          let seen =
            phrase_in-Reported peer n k "tablets" e s h1 ((str_iff phrase "uses tablets").0 u) in
          (
            rw u at still,
            (
              Some-grow (Extends-run (Emits-is_done Anything-Quiet peer n l _) e s1 h2) seen,
              others,
            ),
          )
      | inr w ↦ absurd (false≢true (rw w at still))
    ]
