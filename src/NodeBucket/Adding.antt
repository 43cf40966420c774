-- ===== src/NodeBucket/Adding.antt =====
-- `NodeBucket::add` on every branch.
use mathlib.Core.List.{Perm}
use torrent_sync.Common.{
  ℕ, ◌<◌, ◌≡◌, ◌⊎◌, inl, inr, refl, Bool, true, false, ltb, ◌==◌, List, ◌∷◌, ◌||◌, length, Outcome,
  returns, throws, invalid_argument, arith, Bool-cases, if◌then◌else◌,
}
use torrent_sync.NodeData.{IsNodeData, value, lt, gt}
use torrent_sync.NodeData.Order.{lt_iff, gt_iff}
use torrent_sync.NodeData.Split.Range.{IsOrdered}
use torrent_sync.Node.{Node}
use torrent_sync.NodeBucket.{NodeBucket, size, insert, good_ones, remove_bad, add}
use torrent_sync.NodeBucket.Content.{insert-perm, length-insert, insert-All, good_ones_full}
use torrent_sync.NodeBucket.Order.{IsWithin, IsBucket, insert-IsSorted, remove_bad-IsBucket}

-- The nodes that `add` leaves in place: all of them, or those that are not bad if the bucket is full.
abbrev pub kept : ℕ → ℕ → NodeBucket → List Node
kept max_size now b = if size b == max_size then good_ones now b.elements else b.elements

-- What `add` does with a node between the bounds.
pub data Added (max_size now : ℕ) (n : Node) (b : NodeBucket)
    : Outcome (Bool × NodeBucket) → Type 0 where
  put :
      (b' : NodeBucket) {r : Outcome (Bool × NodeBucket)}
      → r ≡ returns (true, b')
      → length (kept max_size now b) < max_size
      → Perm b'.elements (n ∷ kept max_size now b)
      → b'.low ≡ b.low
      → b'.high ≡ b.high
      → IsBucket max_size b'
      → Added max_size now n b r
  full :
      {r : Outcome (Bool × NodeBucket)}
      → r ≡ returns (false, b)
      → size b ≡ max_size
      → good_ones now b.elements ≡ b.elements
      → Added max_size now n b r

inserted :
    (max_size : ℕ) (n : Node) (b : NodeBucket)
    → IsBucket max_size b
    → IsWithin b.low b.high n
    → size b < max_size
    → IsBucket max_size (record b { elements = insert n b.elements })
inserted max_size n b v w room = record {
  bounds = v.bounds;
  within = insert-All (IsWithin b.low b.high) n b.elements w v.within;
  sorted = insert-IsSorted b.low b.high n b.elements w.0 v.within v.sorted;
  capacity = omega (arith, length-insert n b.elements, room);
}

bounds_pass :
    (n : Node) (b : NodeBucket)
    → IsOrdered b.low b.high
    → IsWithin b.low b.high n
    → (gt n.id b.high || lt n.id b.low) ≡ false
bounds_pass n b o w =
    ground (arith, gt_iff n.id b.high w.0 o.high_words, lt_iff n.id b.low w.0 o.low_words)

pub add-Added :
    (max_size now : ℕ) (n : Node) (b : NodeBucket)
    → IsBucket max_size b
    → IsWithin b.low b.high n
    → Added max_size now n b (add max_size now n b)
unfolding add remove_bad
add-Added max_size now n b v w = elim (Bool-cases (size b == max_size)) [
  | inl e ↦
      let left = remove_bad now b in
      elim (Bool-cases (ltb (size left) max_size)) [
        | inl room ↦
            put (record left { elements = insert n left.elements })
              (rw (bounds_pass n b v.bounds w, e, room) refl) (rw e (ground arith))
              (rw e (insert-perm n left.elements)) refl refl
              (inserted max_size n left (remove_bad-IsBucket max_size now b v) w (ground arith))
        | inr none_bad ↦
            let same = good_ones_full now b.elements (ground arith) in
            full (rw (bounds_pass n b v.bounds w, e, none_bad, same) refl) (ground arith) same
      ]
  | inr e ↦
      let room : ltb (size b) max_size ≡ true = ground (arith, v.capacity) in
      put (record b { elements = insert n b.elements })
        (rw (bounds_pass n b v.bounds w, e, room) refl) (rw e (ground arith))
        (rw e (insert-perm n b.elements)) refl refl (inserted max_size n b v w (ground arith))
]

-- A node outside the bounds is refused with an exception.
pub add_outside :
    (max_size now : ℕ) (n : Node) (b : NodeBucket)
    → IsOrdered b.low b.high
    → IsNodeData n.id
    → (value n.id < value b.low) ⊎ (value b.high < value n.id)
    → add max_size now n b ≡ throws invalid_argument
unfolding add
add_outside max_size now n b o hn out =
    ground (arith, gt_iff n.id b.high hn o.high_words, lt_iff n.id b.low hn o.low_words)

-- With room left, nothing is dropped.
pub record Grown (max_size now : ℕ) (n : Node) (b : NodeBucket) : Type 0 where
  pub result : NodeBucket
  pub added : add max_size now n b ≡ returns (true, result)
  pub content : Perm result.elements (n ∷ b.elements)
  pub same_low : result.low ≡ b.low
  pub same_high : result.high ≡ b.high
  pub valid : IsBucket max_size result

pub add-Grown :
    (max_size now : ℕ) (n : Node) (b : NodeBucket)
    → IsBucket max_size b
    → IsWithin b.low b.high n
    → size b < max_size
    → Grown max_size now n b
add-Grown max_size now n b v w room = go (add-Added max_size now n b v w)
  where
    go : Added max_size now n b (add max_size now n b) → Grown max_size now n b
    go (put b' e l p low high v') =
        let not_full : (size b == max_size) ≡ false = ground arith in
        record {
          result = b';
          added = e;
          content = rw not_full at p;
          same_low = low;
          same_high = high;
          valid = v';
        }
    go (full e sz same) = absurd (omega (arith, sz))
