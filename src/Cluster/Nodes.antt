-- ===== src/Cluster/Nodes.antt =====
-- transport/inmem.go: the registry holds what was put there last.
use raftly.Common.{◌≡◌, refl, [], ◌∷◌, some, Bytes, str_eq, str_eq_refl, Bool-cases, inl, inr}
use raftly.Node.{Node}
use raftly.Cluster.{Registry, find_node, set_node}

pub find_node-set_node :
    (id : Bytes) (n : Node) (r : Registry) → find_node id (set_node id n r) ≡ some n
find_node-set_node id n [] = rw (str_eq_refl id) refl
find_node-set_node id n (p ∷ ps) = elim (Bool-cases (str_eq p.0 id)) [
  | inl here ↦ rw (here, str_eq_refl id) refl
  | inr other ↦ rw (other, other) (find_node-set_node id n ps)
]
