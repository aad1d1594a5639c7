-- ===== src/Convert/Nodes/Sort.antt =====
-- The fields of a node that stay, and the order of the rolling restart (`sorted(nodes.values(),
-- key=lambda n: (n.dc, n.rack, n.pod or "", n.host_id))` of sample_app/convert_to_tablets.py).
use Prim.Native.Nat.{Ordering}
use Prim.Native.String.{compare}
use scylla_k8s_example.Base.{
  String, Bool, true, false, Option, none, some, List, [], ◌∷◌, if◌then◌else◌,
}

pub record Node : Type 0 where
  pub host_id : String
  pub dc : String
  pub rack : String
  pub pod : Option String

abbrev pod_key : Option String → String
pod_key none = ""
pod_key (some p) = p

-- The comparison of two tuples: the first place where they differ decides.
abbrev pub then_by : Ordering → Bool → Bool
then_by Ordering.lt later = true
then_by Ordering.eq later = later
then_by Ordering.gt later = false

unfoldable pub node_le : Node → Node → Bool
node_le m n = then_by (compare m.dc n.dc) (
    then_by (compare m.rack n.rack) (
      then_by (compare (pod_key m.pod) (pod_key n.pod))
        (then_by (compare m.host_id n.host_id) true)))

unfoldable pub insert_node : Node → List Node → List Node
insert_node n [] = n ∷ []
insert_node n (m ∷ l) = if node_le n m then n ∷ m ∷ l else m ∷ insert_node n l

unfoldable pub sort_nodes : List Node → List Node
sort_nodes [] = []
sort_nodes (n ∷ l) = insert_node n (sort_nodes l)
