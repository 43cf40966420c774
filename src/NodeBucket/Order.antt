-- ===== src/NodeBucket/Order.antt =====
-- The invariant of a bucket: its nodes lie between its bounds, in ascending order, and there are
-- at most `max_size` of them.
use torrent_sync.Common.{ℕ, ◌≤◌, inl, inr, List, [], ◌∷◌, All, All-imp, arith, Bool-cases}
use torrent_sync.NodeData.{NodeData, IsNodeData, value, lt}
use torrent_sync.NodeData.Order.{lt_iff}
use torrent_sync.NodeData.Split.Range.{IsOrdered}
use torrent_sync.Node.{Node, is_bad}
use torrent_sync.NodeBucket.{NodeBucket, size, insert, good_ones, remove_bad}
use torrent_sync.NodeBucket.Content.{
  insert_cons, insert_nil, insert-All, good_ones-All, length-good_ones-le,
}

-- The node's identifier lies between the bounds, both included.
abbrev pub IsWithin : NodeData → NodeData → Node → Type 0
IsWithin low high n = IsNodeData n.id × (value low ≤ value n.id) × (value n.id ≤ value high)

abbrev pub IsSorted : List Node → Type 0
IsSorted [] = Unit {0}
IsSorted (x ∷ xs) = All (λ y. value x.id ≤ value y.id) xs × IsSorted xs

pub record IsBucket (max_size : ℕ) (b : NodeBucket) : Type 0 where
  pub bounds : IsOrdered b.low b.high
  pub within : All (IsWithin b.low b.high) b.elements
  pub sorted : IsSorted b.elements
  pub capacity : size b ≤ max_size

pub insert-IsSorted :
    (low high : NodeData) (n : Node) (xs : List Node)
    → IsNodeData n.id
    → All (IsWithin low high) xs
    → IsSorted xs
    → IsSorted (insert n xs)
insert-IsSorted low high n [] hn hs s = rw insert_nil (tt, tt)
insert-IsSorted low high n (x ∷ xs) hn hs s = rw insert_cons (elim (Bool-cases (lt n.id x.id)) [
  | inl e ↦
      let less = (lt_iff n.id x.id hn hs.0.0).0 e in
      rw e (
        (
          omega (arith, less),
          All-imp (λ y. value x.id ≤ value y.id) (λ y. value n.id ≤ value y.id)
              (λ y h. omega (arith, less, h)) xs s.0,
        ),
        s,
      )
  | inr e ↦ rw e (
    insert-All (λ y. value x.id ≤ value y.id) n xs (ground (arith, lt_iff n.id x.id hn hs.0.0)) s.0,
    insert-IsSorted low high n xs hn hs.1 s.1,
  )
])

good_ones-IsSorted : (now : ℕ) (xs : List Node) → IsSorted xs → IsSorted (good_ones now xs)
unfolding good_ones
good_ones-IsSorted now [] s = tt
good_ones-IsSorted now (x ∷ xs) s = elim (Bool-cases (is_bad now x)) [
  | inl e ↦ rw e (good_ones-IsSorted now xs s.1)
  | inr e ↦
      rw e (good_ones-All (λ y. value x.id ≤ value y.id) now xs s.0, good_ones-IsSorted now xs s.1)
]

pub remove_bad-IsBucket :
    (max_size now : ℕ) (b : NodeBucket) → IsBucket max_size b → IsBucket max_size (remove_bad now b)
unfolding remove_bad
remove_bad-IsBucket max_size now b v = record {
  bounds = v.bounds;
  within = good_ones-All (IsWithin b.low b.high) now b.elements v.within;
  sorted = good_ones-IsSorted now b.elements v.sorted;
  capacity = omega (arith, v.capacity, length-good_ones-le now b.elements);
}
