-- ===== src/Convert/Api/Ends.antt =====
-- The end of a call of the REST API (sample_app/convert_to_tablets.py, `api`, `api_alive`).
use scylla_k8s_example.Base.{ℕ, String, Option}
use scylla_k8s_example.Exec.{Env, Method, Route, Response}
use scylla_k8s_example.Exec.Halts.{Halts, halts_rules}
use scylla_k8s_example.Exec.Ends.{Halts-get_or, value_ends}
use scylla_k8s_example.Convert.Api.{error_message, answer, api, api_alive}

module _ {e : Env} where
  pub Halts-error_message : (r : Response) → Halts e (error_message r)
  unfolding error_message
  Halts-error_message r = search (halts_rules, Halts-get_or) depth 8

  pub Halts-answer :
      (method : Method) (route : Route) (r : Response) → Halts e (answer method route r)
  unfolding answer
  Halts-answer method route r = search (halts_rules, Halts-error_message) depth 8

  pub Halts-api :
      (method : Method) (host : Option String) (route : Route) (params : Option (String × String))
      (timeout : ℕ)
      → Halts e (api method host route params timeout)
  unfolding api
  Halts-api method host route params timeout = search (halts_rules, Halts-answer) depth 8

  pub Halts-api_alive : (host : String) → Halts e (api_alive host)
  unfolding api_alive
  Halts-api_alive host = search (halts_rules, Halts-api) depth 8

pub ruleset api_ends = (halts_rules, value_ends, Halts-api, Halts-api_alive)
