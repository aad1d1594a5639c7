-- ===== src/Convert/Restart/Returned.antt =====
-- What `wait_for` and `restart_node` (sample_app/convert_to_tablets.py) have seen when they return.
use scylla_k8s_example.Base.{◌≡◌, Bool, true}
use scylla_k8s_example.Exec.{ok, Env, St, Exec}
use scylla_k8s_example.Exec.Emits.{Anything, Extends, Emits}

-- The predicate held at some time after the start, and nothing has happened since.
abbrev pub Held : Exec Bool → Env → St → St → Type 0
Held p e s s' = (t : St) × Extends Anything s.trace t.trace × (p e t ≡ (ok true, s'))
