-- ===== src/NodeBucket/Lookup.antt =====
-- `inBounds` and `find` of torrentsync/dht/NodeBucket.h.
use mathlib.Core.List.{Mem, mem-cons_self, mem-cons_of_mem}
use torrent_sync.Common.{
  ◌≤◌, ◌≡◌, ◌≢◌, ◌↔◌, inl, inr, refl, true, Option, none, some, List, [], ◌∷◌, All, arith,
  Bool-cases,
}
use torrent_sync.NodeData.{NodeData, IsNodeData, value, eq}
use torrent_sync.NodeData.Order.{le_iff, eq_iff}
use torrent_sync.NodeData.Split.Range.{IsOrdered}
use torrent_sync.Node.{Node}
use torrent_sync.NodeBucket.{NodeBucket, in_bounds, find_node, find}

-- `inBounds` is membership in the interval of 160-bit numbers.
pub in_bounds_iff :
    (b : NodeBucket) (d : NodeData)
    → IsOrdered b.low b.high
    → IsNodeData d
    → (in_bounds b d ≡ true) ↔ ((value b.low ≤ value d) × (value d ≤ value b.high))
unfolding in_bounds
in_bounds_iff b d o h = ground (arith, le_iff b.low d o.low_words h, le_iff d b.high h o.high_words)

-- What a search for `d` returns.
pub data Found (d : NodeData) (xs : List Node) : Option Node → Type 0 where
  hit : {r : Option Node} (n : Node) → r ≡ some n → Mem n xs → n.id ≡ d → Found d xs r
  miss : {r : Option Node} → r ≡ none → All (λ n. n.id ≢ d) xs → Found d xs r

Found-cons :
    (d : NodeData) (x : Node) (xs : List Node) {r : Option Node}
    → x.id ≢ d
    → Found d xs r
    → Found d (x ∷ xs) r
Found-cons d x xs other (hit n e m same) = hit n e (mem-cons_of_mem x m) same
Found-cons d x xs other (miss e all) = miss e (other, all)

pub find_node-Found : (d : NodeData) (xs : List Node) → Found d xs (find_node d xs)
unfolding find_node
find_node-Found d [] = miss refl tt
find_node-Found d (x ∷ xs) = elim (Bool-cases (eq x.id d)) [
  | inl e ↦ rw e (hit x refl mem-cons_self ((eq_iff x.id d).0 e))
  | inr e ↦ rw e (Found-cons d x xs (λ same. ground (arith, eq_iff x.id d)) (find_node-Found d xs))
]

-- `find` returns a node of the bucket with the identifier, or none if no node has it.
pub find-Found : (d : NodeData) (b : NodeBucket) → Found d b.elements (find d b)
unfolding find
find-Found d b = find_node-Found d b.elements
