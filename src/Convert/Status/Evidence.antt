-- ===== src/Convert/Status/Evidence.antt =====
-- What an answer of the cluster says of one node in one keyspace, and when the program has seen it
-- (sample_app/convert_to_tablets.py, `node_modes`, `node_phrase`, `wait_node_mode`).
use scylla_k8s_example.Base.{
  ℕ, zero, suc, ◌≡◌, refl, sym, subst, ◌∙◌, ap, String, ◌<>◌, List, [], ◌∷◌, none,
}
use scylla_k8s_example.Base.{
  true, false, Bool-cases, inl, inr, All, All-map, string_eq, ◌==◌, str_iff,
}
use scylla_k8s_example.Base.{&&-eq-true, leb}
use scylla_k8s_example.Base.Dict.{Dict, insert}
use scylla_k8s_example.Json.{Json}
use scylla_k8s_example.Exec.{ok, Event, sent, response, Response, rest, get}
use scylla_k8s_example.Exec.{keyspace_status, Env, St, Exec, pure, ◌>>=◌}
use scylla_k8s_example.Exec.Emits.{Extends-run}
use scylla_k8s_example.Exec.Static.{Static, Static-runs, static_rules}
use mathlib.Core.Path.{subst₂}
use mathlib.Core.Bool.{false≢true}
use scylla_k8s_example.Exec.Steps.{
  out_of_fuel≢ok, bind-ok, pure-ok, All-grow, bind_after, monad_laws, Some, here, there, Some-grow,
}
use scylla_k8s_example.Exec.Values.{
  get_key, Static-get_key, Static-index, Static-iterate, Static-as_key,
}
use scylla_k8s_example.Convert.Api.{Anything-Quiet, answer}
use scylla_k8s_example.Convert.Api.Calls.{api-ok}
use scylla_k8s_example.Convert.Nodes.{Node}
use scylla_k8s_example.Convert.Status.Reads.{Emits-phrase_in}
use scylla_k8s_example.Convert.Status.{
  ks_status, Modes, collect_modes, modes_of, node_modes, node_phrase,
}
use scylla_k8s_example.Convert.Status.{phrase_in, phrases, all_use, poll_mode, wait_node_mode}

-- The phrase that the body of an answer gives for one host ID, and that the answer gives.
pub reading : String → Json → Exec String
reading host_id status = modes_of status >>= λ modes.
    get_key status "status" >>= λ ks_mode. pure (node_phrase modes host_id ks_mode)

pub phrase_from : String → String → Response → Exec String
phrase_from keyspace host_id r = answer get (keyspace_status keyspace) r >>= reading host_id

-- The event is an answer to `GET` of a keyspace's status, and by it the node uses the mode.
pub data IsReport (want host_id keyspace : String) : Event → Type 0 where
  report :
      {host : String} {port : ℕ} {r : Response}
      → ((e : Env) (s : St) → phrase_from keyspace host_id r e s ≡ (ok ("uses " <> want), s))
      → IsReport want host_id keyspace
          (sent (rest get host port (keyspace_status keyspace) none 30) (response r))

abbrev pub Reported : String → String → String → List Event → Type 0
Reported want host_id keyspace t = Some (IsReport want host_id keyspace) t

Static-collect_modes : (l : List Json) (modes : Modes) → Static (collect_modes l modes)
unfolding collect_modes
Static-collect_modes [] modes = search static_rules
Static-collect_modes (entry ∷ l) modes =
    search (static_rules, Static-index, Static-get_key, Static-as_key, Static-collect_modes l) depth
      8

Static-modes_of : (status : Json) → Static (modes_of status)
unfolding modes_of
Static-modes_of status =
    search (static_rules, Static-get_key, Static-iterate, Static-collect_modes) depth 8

Static-reading : (host_id : String) (status : Json) → Static (reading host_id status)
unfolding reading
Static-reading host_id status = search (static_rules, Static-modes_of, Static-get_key) depth 8

phrase_in_lem :
    (control n : Node) (keyspace : String)
    → phrase_in control n keyspace ≡ (ks_status control keyspace none >>= reading n.host_id)
unfolding phrase_in node_modes reading
phrase_in_lem control n keyspace = simp monad_laws

pub ks_status-ok :
    (n : Node) (keyspace : String) (e : Env) (s : St) {s' : St} {status : Json}
    → ks_status n keyspace none e s ≡ (ok status, s')
    → (host : String) × (port : ℕ) × (r : Response) × (t : List Event) × (s'.trace
        ≡ sent (rest get host port (keyspace_status keyspace) none 30) (response r) ∷ t)
      × ((e' : Env) (u : St) → answer get (keyspace_status keyspace) r e' u ≡ (ok status, u))
unfolding ks_status
ks_status-ok n keyspace e s h =
    let (host, s1, h1, h2) = bind-ok _ _ h in
    let (r, latest, answers) = api-ok _ _ _ _ _ e s1 h2 in (_, _, r, _, latest, answers)

-- The phrase that the program computes is that of the answer which it has just received.
pub phrase_in-Reported :
    (control n : Node) (keyspace want : String) (e : Env) (s : St) {s' : St} {phrase : String}
    → phrase_in control n keyspace e s ≡ (ok phrase, s')
    → phrase ≡ "uses " <> want
    → Reported want n.host_id keyspace s'.trace
unfolding phrase_from
phrase_in-Reported control n keyspace want e s {s'} {phrase} h uses =
    let h' = rw phrase_in_lem at h in
    let (status, s1, h1, h2) = bind-ok _ _ h' in
    let (runs, same_s1) = Static-runs (Static-reading n.host_id status) h2 in
    let (host, port, r, t, latest, answers) = ks_status-ok control keyspace e s h1 in
    subst (λ u. Reported want n.host_id keyspace u)
      (sym (ap (λ (u : St). u.trace) same_s1 ∙ latest))
      (here (
        report (λ e' u. bind_after _ _ e' u (answers e' u) ∙ runs e' u ∙ ap (λ p. (ok p, u)) uses)))

-- Every phrase found so far that names the mode was reported.
abbrev Backed : String → String → List Event → String × String → Type 0
Backed want host_id t (keyspace, phrase) =
    phrase ≡ "uses " <> want → Reported want host_id keyspace t

abbrev IsKey : String → String × String → Type 0
IsKey keyspace (k, phrase) = k ≡ keyspace

All-insert :
    (P : String × String → Type 0) (k v : String) (d : Dict String)
    → ((j : String) → j ≡ k → P (j, v))
    → All P d
    → All P (insert k v d)
unfolding insert
All-insert P k v [] f h = (f k refl, tt)
All-insert P k v ((j, w) ∷ d) f (h, hs) = elim (Bool-cases (j == k)) [
  | inl e ↦ rw e (f j ((str_iff j k).0 e), hs)
  | inr e ↦ rw e (h, All-insert P k v d f hs)
]

Some-insert_self : (k v : String) (d : Dict String) → Some (IsKey k) (insert k v d)
unfolding insert
Some-insert_self k v [] = here refl
Some-insert_self k v ((j, w) ∷ d) = elim (Bool-cases (j == k)) [
  | inl e ↦ rw e (here ((str_iff j k).0 e))
  | inr e ↦ rw e (there (Some-insert_self k v d))
]

Some-insert : (i k v : String) (d : Dict String) → Some (IsKey i) d → Some (IsKey i) (insert k v d)
unfolding insert
Some-insert i k v [] p = elim p [ ]
Some-insert i k v ((j, w) ∷ d) (here h) = elim (Bool-cases (j == k)) [
  | inl e ↦ rw e (here h)
  | inr e ↦ rw e (here h)
]
Some-insert i k v ((j, w) ∷ d) (there h) = elim (Bool-cases (j == k)) [
  | inl e ↦ rw e (there h)
  | inr e ↦ rw e (there (Some-insert i k v d h))
]

module _ (control n : Node) (want : String) (e : Env) where
  -- The phrases of a round are backed by the history, and every keyspace has one.
  phrases-Backed :
      (l : List String) (found : Dict String) (s : St) {s' : St} {d : Dict String}
      → phrases control n l found e s ≡ (ok d, s')
      → All (Backed want n.host_id s.trace) found
      → All (Backed want n.host_id s'.trace) d
        × ((k : String) → Some (IsKey k) found → Some (IsKey k) d)
        × All (λ k. Some (IsKey k) d) l
  unfolding phrases
  phrases-Backed [] found s h b =
      let (same_d, same_s) = pure-ok found e s h in
      (
        subst₂ (λ d t. All (Backed want n.host_id t) d) same_d
            (ap (λ (u : St). u.trace) (sym same_s)) b,
        λ k p. subst (λ d. Some (IsKey k) d) same_d p,
        tt,
      )
  phrases-Backed (keyspace ∷ l) found s {s'} h b =
      let (phrase, s1, h1, h2) = bind-ok _ _ h in
      let grown = Extends-run (Emits-phrase_in Anything-Quiet control n keyspace) e s h1 in
      let old =
        All-grow (λ p t. Backed want n.host_id t p) found (λ p f u. Some-grow grown (f u)) b in
      let new = λ (j : String) (j_is : j ≡ keyspace) (u : phrase ≡ "uses " <> want).
        subst (λ k. Reported want n.host_id k s1.trace) (sym j_is)
          (phrase_in-Reported control n keyspace want e s h1 u) in
      let (r1, r2, r3) =
        phrases-Backed l (insert keyspace phrase found) s1 h2
          (All-insert (Backed want n.host_id s1.trace) keyspace phrase found new old) in
      (
        r1,
        λ k p. r2 k (Some-insert k keyspace phrase found p),
        (r2 keyspace (Some-insert_self keyspace phrase found), r3),
      )

-- A key whose value names the mode has been reported.
Backed-key :
    (want host_id : String) (t : List Event) (k : String) (d : Dict String)
    → All (Backed want host_id t) d
    → all_use want d ≡ true
    → Some (IsKey k) d
    → Reported want host_id k t
Backed-key want host_id t k [] b u p = elim p [ ]
Backed-key want host_id t k ((j, w) ∷ d) (b, bs) u (here h) =
    subst (λ k. Reported want host_id k t) h
      (b ((str_iff w ("uses " <> want)).0 (&&-eq-true _ _ u).0))
Backed-key want host_id t k ((j, w) ∷ d) (b, bs) u (there p) =
    Backed-key want host_id t k d bs (&&-eq-true _ _ u).1 p

module _ (control n : Node) (want : String) (e : Env) where
  -- A round whose phrases all name the mode has been told so for each keyspace.
  phrases-Reported :
      (l : List String) (s : St) {s' : St} {d : Dict String}
      → phrases control n l [] e s ≡ (ok d, s')
      → all_use want d ≡ true
      → All (λ k. Reported want n.host_id k s'.trace) l
  phrases-Reported l s {s'} {d} h u =
      let (backed, _, present) = phrases-Backed control n want e l [] s h tt in
      All-map l (λ k p. Backed-key want n.host_id s'.trace k d backed u p) present

  poll_mode-Reported :
      (fuel : ℕ) (l : List String) (timeout deadline : ℕ) (s : St) {s' : St}
      → poll_mode fuel control n l want timeout deadline e s ≡ (ok true, s')
      → All (λ k. Reported want n.host_id k s'.trace) l
  unfolding poll_mode
  poll_mode-Reported zero l timeout deadline s h = absurd (out_of_fuel≢ok e s h)
  poll_mode-Reported (suc fuel) l timeout deadline s h =
      let (found, s1, h1, h2) = bind-ok _ _ h in
      elim (Bool-cases (all_use want found)) [
        | inl u ↦
            let (_, same_s) = pure-ok true e s1 (rw u at h2) in
            subst (λ t. All (λ k. Reported want n.host_id k t) l)
              (ap (λ (u : St). u.trace) (sym same_s)) (phrases-Reported l s h1 u)
        | inr w ↦
            let (now, s2, h3, h4) = bind-ok _ _ (rw w at h2) in
            elim (Bool-cases (leb deadline now)) [
              | inl late ↦
                  let (_, s3, h5, h6) = bind-ok _ _ (rw late at h4) in
                  absurd (false≢true (pure-ok false e s3 h6).0)
              | inr early ↦
                  let (_, s3, h5, h6) = bind-ok _ _ (rw early at h4) in
                  let (_, s4, h7, h8) = bind-ok _ _ {s = s3} h6 in
                  poll_mode-Reported fuel l timeout deadline s4 h8
            ]
      ]

  -- A wait that succeeds has been told of every keyspace that the node uses the mode.
  pub wait_node_mode-Reported :
      (l : List String) (timeout : ℕ) (s : St) {s' : St}
      → wait_node_mode control n l want timeout e s ≡ (ok true, s')
      → All (λ k. Reported want n.host_id k s'.trace) l
  unfolding wait_node_mode
  wait_node_mode-Reported l timeout s h =
      let (start, s1, h1, h2) = bind-ok _ _ h in poll_mode-Reported (suc timeout) l timeout _ s1 h2
