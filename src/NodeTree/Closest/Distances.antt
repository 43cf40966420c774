-- ===== src/NodeTree/Closest/Distances.antt =====
-- The order of the nodes by their distance from an identifier.
use torrent_sync.Common.{ℕ, ◌≤◌, ◌≡◌, ◌↔◌, true, List, [], ◌∷◌, All, arith}
use torrent_sync.Common.Bits.{bit_xor_lt}
use torrent_sync.NodeData.{NodeData, IsNodeData, value, distance}
use torrent_sync.NodeData.Order.{le_iff}
use torrent_sync.Node.{Node}
use torrent_sync.NodeTree.Closest.{closer}

-- The distance of a node, as a number.
abbrev pub far : NodeData → Node → ℕ
far d n = value (distance n.id d)

-- No node is nearer than the one before it.
abbrev pub IsByDistance : NodeData → List Node → Type 0
IsByDistance d [] = Unit {0}
IsByDistance d (x ∷ xs) = All (λ y. far d x ≤ far d y) xs × IsByDistance d xs

distance-IsNodeData : (a b : NodeData) → IsNodeData a → IsNodeData b → IsNodeData (distance a b)
unfolding distance
distance-IsNodeData a b ha hb = (
  bit_xor_lt 64 a.p1 b.p1 (omega (arith, ha)) (omega (arith, hb)),
  bit_xor_lt 64 a.p2 b.p2 (omega (arith, ha)) (omega (arith, hb)),
  bit_xor_lt 32 a.p3 b.p3 (omega (arith, ha)) (omega (arith, hb)),
)

pub closer_iff :
    (d : NodeData) (x y : Node)
    → IsNodeData d
    → IsNodeData x.id
    → IsNodeData y.id
    → (closer d x y ≡ true) ↔ (far d x ≤ far d y)
unfolding closer
closer_iff d x y hd hx hy =
    le_iff (distance x.id d) (distance y.id d) (distance-IsNodeData x.id d hx hd)
      (distance-IsNodeData y.id d hy hd)
