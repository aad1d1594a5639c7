-- ===== src/Convert/Nodes/Choice.antt =====
-- Which node `pick_control` (sample_app/convert_to_tablets.py) gives.
use scylla_k8s_example.Base.{◌≡◌, String, ◌++◌, Option, none, some, List, [], ◌∷◌, true, false, ◌⊎◌}
use scylla_k8s_example.Exec.{ok, Env, St}
use scylla_k8s_example.Convert.Nodes.{Node, is_excluded, is_up}
use scylla_k8s_example.Convert.Nodes.{answers_as}

-- The nodes were gone through in their order, from one state to another: each is the excluded one, or
-- was asked in the state that the nodes before it left, and did not answer.
abbrev pub Passed : Option Node → Env → List Node → St → St → Type 0
Passed exclude e [] s s' = s' ≡ s
Passed exclude e (n ∷ nodes) s s' =
    ((is_excluded exclude n ≡ true) × Passed exclude e nodes s s')
    ⊎ ((is_excluded exclude n ≡ false)
        × (t : St) × (is_up n e s ≡ (ok false, t))
        × Passed exclude e nodes t s')

-- A node is the first of the list, the excluded one apart, that answers when asked; no node means
-- that all others were asked and did not answer. Nothing else was done.
abbrev pub Choice : List Node → Option Node → Env → St → St → Option Node → Type 0
Choice nodes exclude e s s' (some n) =
    (before : List Node) × (after : List Node) × (nodes ≡ before ++ (n ∷ after))
    × (is_excluded exclude n ≡ false)
    × (t : St) × Passed exclude e before s t
    × (is_up n e t ≡ (ok true, s'))
Choice nodes exclude e s s' none = Passed exclude e nodes s s'

-- The addresses were called in their order, from one state to another, each in the state that the
-- call before it left, and none reported the host ID.
abbrev pub Silent : String → Env → List String → St → St → Type 0
Silent host_id e [] s s' = s' ≡ s
Silent host_id e (a ∷ addresses) s s' =
    (t : St) × (answers_as host_id a e s ≡ (ok false, t)) × Silent host_id e addresses t s'

-- An address is the first of the list that reports the host ID; no address means that each was called
-- and did not. Nothing else was done.
abbrev pub Answer : String → List String → Env → St → St → Option String → Type 0
Answer host_id addresses e s s' (some a) =
    (before : List String) × (after : List String) × (addresses ≡ before ++ (a ∷ after))
    × (t : St) × Silent host_id e before s t
    × (answers_as host_id a e t ≡ (ok true, s'))
Answer host_id addresses e s s' none = Silent host_id e addresses s s'
