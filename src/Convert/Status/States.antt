-- ===== src/Convert/Status/States.antt =====
-- What an answer of the cluster says of a keyspace (sample_app/convert_to_tablets.py, `ks_state`).
use scylla_k8s_example.Base.{◌≡◌, ◌∙◌, ℕ, sym, ap, subst, String, List, none, true}
use scylla_k8s_example.Json.{Json, is_text}
use scylla_k8s_example.Exec.{
  ok, Event, sent, Response, response, rest, get, keyspace_status, Env, St, Exec, ◌>>=◌,
}
use scylla_k8s_example.Exec.Static.{Static-runs}
use scylla_k8s_example.Exec.Steps.{bind-ok, bind_after, Some, here}
use scylla_k8s_example.Exec.Values.{get_key, Static-get_key}
use scylla_k8s_example.Convert.Api.{answer}
use scylla_k8s_example.Convert.Nodes.{Node}
use scylla_k8s_example.Convert.Status.{ks_state}
use scylla_k8s_example.Convert.Status.Evidence.{ks_status-ok}

pub state_from : String → Response → Exec Json
state_from keyspace r =
    answer get (keyspace_status keyspace) r >>= λ status. get_key status "status"

-- The event is an answer to `GET` of a keyspace's status, and by it the keyspace is in the state.
pub data IsState (want keyspace : String) : Event → Type 0 where
  seen :
      {host : String} {port : ℕ} {r : Response} {state : Json}
      → ((e : Env) (s : St) → state_from keyspace r e s ≡ (ok state, s))
      → is_text state want ≡ true
      → IsState want keyspace
          (sent (rest get host port (keyspace_status keyspace) none 30) (response r))

abbrev pub InState : String → String → List Event → Type 0
InState want keyspace t = Some (IsState want keyspace) t

pub ks_state-InState :
    (n : Node) (keyspace want : String) (e : Env) (s : St) {s' : St} {state : Json}
    → ks_state n keyspace e s ≡ (ok state, s')
    → is_text state want ≡ true
    → InState want keyspace s'.trace
unfolding ks_state state_from
ks_state-InState n keyspace want e s h is_wanted =
    let (status, s1, h1, h2) = bind-ok _ _ h in
    let (runs, same_s1) = Static-runs (Static-get_key status "status") h2 in
    let (host, port, r, t, latest, answers) = ks_status-ok n keyspace e s h1 in
    subst (λ u. InState want keyspace u) (sym (ap (λ (u : St). u.trace) same_s1 ∙ latest))
      (here (seen (λ e' u. bind_after _ _ e' u (answers e' u) ∙ runs e' u) is_wanted))
