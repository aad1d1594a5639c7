-- ===== src/Script/Steps.antt =====
-- Taking a run that returned apart.
use scylla_k8s_example.Base.{◌≡◌, refl, ap, String, List}
use scylla_k8s_example.Script.{
  Value, History, Reply, rows, failure, World, Outcome, ok, raised, exited, Script, pure, raise,
  exit, continue, ◌>>=◌, answered, execute,
}

module _ {A B : Type 0} where
  split_ok :
      (p : Outcome A × History) (f : A → Script B) {w : World} {b : B} {h' : History}
      → continue p.0 f w p.1 ≡ (ok b, h')
      → (a : A) × (h1 : History) × (p ≡ (ok a, h1)) × (f a w h1 ≡ (ok b, h'))
  unfolding raise exit
  split_ok (ok a, h1) f same = (a, h1, refl, same)
  split_ok (raised m, h1) f same = cc (ap (λ (p : Outcome B × History). p.0) same)
  split_ok (exited code, h1) f same = cc (ap (λ (p : Outcome B × History). p.0) same)

  -- Both steps of a sequence that returns have returned.
  pub bind-ok :
      (m : Script A) (f : A → Script B) {w : World} {h h' : History} {b : B}
      → (m >>= f) w h ≡ (ok b, h')
      → (a : A) × (h1 : History) × (m w h ≡ (ok a, h1)) × (f a w h1 ≡ (ok b, h'))
  unfolding ◌>>=◌
  bind-ok m f {w} {h} same = split_ok (m w h) f same

-- Rows come from an answer.
answered-ok :
    (r : Reply) (w : World) (h : History) {h' : History} {l : List (List Value)}
    → answered r w h ≡ (ok l, h')
    → r ≡ rows l
unfolding pure raise
answered-ok (rows l) w h same =
    let first = ap (λ (p : Outcome (List (List Value)) × History). p.0) same in cc first
answered-ok (failure m) w h same = cc (ap (λ (p : Outcome (List (List Value)) × History). p.0) same)

pub execute-ok :
    (s : String) (values : List Value) (w : World) (h : History) {h' : History}
    {l : List (List Value)}
    → execute s values w h ≡ (ok l, h')
    → w.answer h s values ≡ rows l
unfolding execute
execute-ok s values w h same = answered-ok (w.answer h s values) w _ same
