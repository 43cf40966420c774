-- ===== src/NodeTree/AddNode.antt =====
-- `NodeTree::addNode`: on a valid tree it always returns, and no assertion fails.
use mathlib.Core.List.{Perm, append_assoc}
use mathlib.Core.List.Perm
use torrent_sync.Common.{
  ap, subst, ℕ, ◌≤◌, ◌<◌, ◌≡◌, inl, inr, refl, Bool, true, false, some, List, ◌∷◌, ◌++◌, All,
  Outcome, returns, arith, Bool-cases,
}
use torrent_sync.NodeData.{NodeData, IsNodeData, value}
use torrent_sync.NodeData.Split.Range.{IsOrdered}
use torrent_sync.Node.{Node, is_bad}
use torrent_sync.NodeBucket.{NodeBucket, in_bounds, size, add}
use torrent_sync.NodeBucket.Order.{IsWithin}
use torrent_sync.NodeTree.{
  NodeTree, dht_k, add_to_half, split_and_add, add_to_buckets, add_node, split,
}
use torrent_sync.NodeBucket.Lookup.{in_bounds_iff}
use torrent_sync.NodeBucket.Adding.{Added, put, full, add-Added}
use torrent_sync.NodeTree.Tiling.{IsTile, Tiles, IsTree, Spot, Finds, find_bucket-Finds}
use torrent_sync.NodeTree.Updates.{Cover, halved, Tiled, halved-Tiled}
use torrent_sync.NodeTree.Contents.{contents, others, contents-Spot, contents-halved}
use torrent_sync.NodeTree.Splitting.{SplitResult, unsplit, divided, split-SplitResult}
use torrent_sync.NodeTree.Adding.{
  NoRoom, BucketsAdded, stored, refused, write_back_same, put-BucketsAdded, added_to-BucketsAdded,
}

BucketsAdded-perm :
    (now : ℕ) (n : Node) (bs hs : List NodeBucket) {r : Outcome (Bool × List NodeBucket)}
    → Perm (contents bs) (contents hs)
    → BucketsAdded now n hs r
    → BucketsAdded now n bs r
BucketsAdded-perm now n bs hs p (stored bs' dropped e t all q) =
    stored bs' dropped e t all (Perm.trans (Perm.cons n p) q)
BucketsAdded-perm now n bs hs p (refused bs' e t q no_room) =
    refused bs' e t (Perm.trans p q) no_room

add_to_half-BucketsAdded :
    (now : ℕ) (n : Node) (b lower upper : NodeBucket) (hs : List NodeBucket)
    → Tiled 0 lower upper hs
    → Cover b lower upper
    → IsWithin b.low b.high n
    → BucketsAdded now n hs (add_to_half now n (lower, upper, hs))
add_to_half-BucketsAdded now n b lower upper hs t c w = elim (Bool-cases (in_bounds lower n.id)) [
  | inl e ↦
      let i = (in_bounds_iff lower n.id lo w.0).0 e in
      unfold add_to_half in
      rw e (added_to-BucketsAdded now n lower hs t.lower_spot c.lower_tile (w.0, i.0, i.1) t.tiles)
  | inr e ↦
      let above : value lower.high < value n.id =
        ground (arith, in_bounds_iff lower n.id lo w.0, ap value c.same_low, w) in
      let i : (value upper.low ≤ value n.id) × (value n.id ≤ value upper.high) =
        omega (arith, above, c.adjacent, ap value c.same_high, w) in
      let inside = (in_bounds_iff upper n.id up w.0).1 i in
      unfold add_to_half in
      rw (e, inside)
        (added_to-BucketsAdded now n upper hs t.upper_spot c.upper_tile (w.0, i.0, i.1) t.tiles)
]
  where
    lo : IsOrdered lower.low lower.high
    lo = c.lower_tile.bucket.bounds

    up : IsOrdered upper.low upper.high
    up = c.upper_tile.bucket.bounds

split_and_add-BucketsAdded :
    (now : ℕ) (n : Node) (b : NodeBucket) (bs : List NodeBucket)
    → Spot b bs
    → IsTile b
    → IsWithin b.low b.high n
    → size b ≡ dht_k
    → Tiles 0 bs
    → BucketsAdded now n bs (split_and_add now n b bs)
split_and_add-BucketsAdded now n b bs spot t w sz tiles = go (split-SplitResult now b bs t)
  where
    go : SplitResult b bs (split now b bs) → BucketsAdded now n bs (split_and_add now n b bs)
    go (unsplit e same) =
        refused {r = split_and_add now n b bs} bs (unfold split_and_add in rw e refl) tiles
          (Perm.refl (contents bs)) (record { bucket = b; spot = spot; within = w; is_full = sz })
    go (divided lower upper e c p) =
        let hs = halved b lower upper bs in
        let same : Perm (contents bs) (contents hs) = Perm.trans (contents-Spot b bs spot) (
          Perm.symm (
            Perm.trans (contents-halved b lower upper 0 bs spot c t tiles) (
              subst (λ l. Perm l (b.elements ++ others b bs))
                (append_assoc lower.elements upper.elements (others b bs))
                (Perm.append_right (others b bs) p)))) in
        unfold split_and_add in
        rw e (
          BucketsAdded-perm now n bs hs same (
            add_to_half-BucketsAdded now n b lower upper hs
              (halved-Tiled b lower upper 0 bs spot c t tiles) c w))

pub add_to_buckets-BucketsAdded :
    (now : ℕ) (own : NodeData) (n : Node) (bs : List NodeBucket)
    → IsNodeData n.id
    → Tiles 0 bs
    → BucketsAdded now n bs (add_to_buckets now own n bs)
add_to_buckets-BucketsAdded now own n bs hn tiles =
    go (add-Added dht_k now n f.bucket f.tile.bucket w)
  where
    f : Finds 0 n.id bs
    f = find_bucket-Finds 0 n.id bs hn (omega arith) tiles

    w : IsWithin f.bucket.low f.bucket.high n
    w = (hn, f.above_low, f.below_high)

    inside : in_bounds f.bucket n.id ≡ true
    inside = (in_bounds_iff f.bucket n.id f.tile.bucket.bounds hn).1 (f.above_low, f.below_high)

    go :
        Added dht_k now n f.bucket (add dht_k now n f.bucket)
        → BucketsAdded now n bs (add_to_buckets now own n bs)
    go (put b' e room p l h v) =
        put-BucketsAdded now n f.bucket b' bs {r = add_to_buckets now own n bs} f.spot f.tile tiles
          (unfold add_to_buckets in rw (f.found, inside, e) refl) p l h v
    go (full e sz same) = elim (Bool-cases (in_bounds f.bucket own)) [
      | inl holds ↦
          unfold add_to_buckets in
          rw (f.found, inside, e, holds, write_back_same f.bucket bs f.spot)
            (split_and_add-BucketsAdded now n f.bucket bs f.spot f.tile w sz tiles)
      | inr not_own ↦
          refused {r = add_to_buckets now own n bs} bs
            (unfold add_to_buckets in
              rw (f.found, inside, e, not_own, write_back_same f.bucket bs f.spot) refl)
            tiles (Perm.refl (contents bs))
            (record { bucket = f.bucket; spot = f.spot; within = w; is_full = sz })
    ]

-- What `addNode` does to the tree.
pub data TreeAdded (now : ℕ) (n : Node) (t : NodeTree) : Outcome (Bool × NodeTree) → Type 0 where
  stored_in :
      {r : Outcome (Bool × NodeTree)} (t' : NodeTree) (dropped : List Node)
      → r ≡ returns (true, t')
      → IsTree t'
      → t'.node ≡ t.node
      → All (λ x. is_bad now x ≡ true) dropped
      → Perm (n ∷ contents t.buckets) (dropped ++ contents t'.buckets)
      → TreeAdded now n t r
  refused_by :
      {r : Outcome (Bool × NodeTree)} (t' : NodeTree)
      → r ≡ returns (false, t')
      → IsTree t'
      → t'.node ≡ t.node
      → Perm (contents t.buckets) (contents t'.buckets)
      → NoRoom n t'.buckets
      → TreeAdded now n t r

-- On a valid tree `addNode` always returns a valid tree. With the result true the tree holds the
-- node besides all that it held, but for bad nodes that were dropped; with the result false it
-- holds what it held, and the bucket for the node's identifier is full.
pub add_node-TreeAdded :
    (now : ℕ) (n : Node) (t : NodeTree)
    → IsNodeData n.id
    → IsTree t
    → TreeAdded now n t (add_node now (some n) t)
add_node-TreeAdded now n t hn v = go (add_to_buckets-BucketsAdded now t.node n t.buckets hn v.tiles)
  where
    go :
        BucketsAdded now n t.buckets (add_to_buckets now t.node n t.buckets)
        → TreeAdded now n t (add_node now (some n) t)
    go (stored bs' dropped e tiles all p) =
        stored_in {r = add_node now (some n) t} (record t { buckets = bs' }) dropped
          (unfold add_node in rw e refl) (record { tiles = tiles; own = v.own }) refl all p
    go (refused bs' e tiles p no_room) =
        refused_by {r = add_node now (some n) t} (record t { buckets = bs' })
          (unfold add_node in rw e refl) (record { tiles = tiles; own = v.own }) refl p no_room
