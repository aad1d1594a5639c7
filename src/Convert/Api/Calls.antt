-- ===== src/Convert/Api/Calls.antt =====
-- Calls of the REST API that return (sample_app/convert_to_tablets.py, `api`).
use mathlib.Core.Path.{ap₂}
use scylla_k8s_example.Base.{ℕ, ◌≡◌, sym, ◌∙◌, ap, String, ◌∷◌, Option}
use scylla_k8s_example.Json.{Json}
use scylla_k8s_example.Exec.{ok, sent, response, Response, rest, Method, Route, Env, St}
use scylla_k8s_example.Exec.Static.{Static-runs}
use scylla_k8s_example.Exec.Steps.{bind-ok, gets-ok, send-ok}
use scylla_k8s_example.Convert.Api.{api, answer, host_text, Static-answer}

-- The answer that a call of the API returns is the latest event.
pub api-ok :
    (method : Method) (host : Option String) (route : Route) (params : Option (String × String))
    (timeout : ℕ) (e : Env) (s : St) {s' : St} {j : Json}
    → api method host route params timeout e s ≡ (ok j, s')
    → (r : Response) × (s'.trace
        ≡ sent (rest method (host_text host) s.api_port route params timeout) (response r)
          ∷ s.trace)
      × ((e' : Env) (t : St) → answer method route r e' t ≡ (ok j, t))
unfolding api
api-ok method host route params timeout e s {s'} h =
    let (port, s1, h1, h2) = bind-ok _ _ h in
    let (same_port, same_s1) = gets-ok _ e s h1 in
    let (r, s2, h3, h4) = bind-ok _ _ h2 in
    let (runs, same_s2) = Static-runs (Static-answer method route r) h4 in
    (
      r,
      ap (λ (u : St). u.trace) same_s2
          ∙ send-ok _ e s1 h3
          ∙ ap₂ (λ p t. sent (rest method (host_text host) p route params timeout) (response r) ∷ t)
              (sym same_port) (ap (λ (u : St). u.trace) same_s1),
      runs,
    )
