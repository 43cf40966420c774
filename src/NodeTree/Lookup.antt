-- ===== src/NodeTree/Lookup.antt =====
-- `getNode`, `removeNode`, `clear`, the constructor and `size` of the tree.
use mathlib.Core.List.{Mem, mem-append_left, mem-append_right}
use torrent_sync.Common.{
  ap, ℕ, ◌+◌, ◌≤◌, ◌<◌, ◌≡◌, ◌≢◌, ◌⊎◌, inl, inr, refl, Option, List, [], ◌∷◌, All, All-append,
  returns, arith,
}
use torrent_sync.NodeData.{NodeData, IsNodeData, value}
use torrent_sync.Node.{Node}
use torrent_sync.NodeBucket.{NodeBucket, find}
use torrent_sync.NodeBucket.Order.{IsWithin}
use torrent_sync.NodeTree.{NodeTree, get_node}
use torrent_sync.NodeTree.Tiling.{
  sorts, IsTile, Tiles, IsTree, Spot, here, there, Finds, find_bucket-Finds,
}
use torrent_sync.NodeTree.Contents.{contents}
use torrent_sync.NodeBucket.Lookup.{Found, hit, miss, find-Found}

-- Nodes within bounds that do not hold `d` have another identifier.
elsewhere :
    (d low high : NodeData) (xs : List Node)
    → (value d < value low) ⊎ (value high < value d)
    → All (IsWithin low high) xs
    → All (λ n. n.id ≢ d) xs
elsewhere d low high [] out w = tt
elsewhere d low high (x ∷ xs) out w = ((λ e. differs e), elsewhere d low high xs out w.1)
  where
    differs : x.id ≡ d → ⊥
    differs e = let same = ap value e in ground arith

contents_above :
    (d : NodeData) (from : ℕ) (bs : List NodeBucket)
    → value d < from
    → Tiles from bs
    → All (λ n. n.id ≢ d) (contents bs)
contents_above d from [] h t = tt
contents_above d from (b ∷ bs) h t =
    All-append (λ n. n.id ≢ d) b.elements (contents bs)
      (elsewhere d b.low b.high b.elements (inl (omega (arith, t.0, h))) t.1.bucket.within)
      (contents_above d (value b.high + 1) bs (omega (arith, t.0, h, t.1.bucket.bounds.ordered))
        t.2)

pub nowhere :
    (d : NodeData) (b : NodeBucket) (from : ℕ) (bs : List NodeBucket)
    → Spot b bs
    → IsTile b
    → value b.low ≤ value d
    → value d ≤ value b.high
    → Tiles from bs
    → All (λ n. n.id ≢ d) b.elements
    → All (λ n. n.id ≢ d) (contents bs)
nowhere d b from _ (here {bs = bs}) hb lo hi t none_here =
    All-append (λ n. n.id ≢ d) b.elements (contents bs) none_here
      (contents_above d (value b.high + 1) bs (omega (arith, hi)) t.2)
nowhere d b from _ (there {x = x} {bs = bs} s other spot) hb lo hi t none_here =
    All-append (λ n. n.id ≢ d) x.elements (contents bs)
      (elsewhere d x.low x.high x.elements (inr (omega (arith, (sorts x b t.1 hb).0 s, lo)))
        t.1.bucket.within)
      (nowhere d b (value x.high + 1) bs spot hb lo hi t.2 none_here)

pub member :
    (n : Node) (b : NodeBucket) (bs : List NodeBucket)
    → Spot b bs
    → Mem n b.elements
    → Mem n (contents bs)
member n b _ (here {bs = bs}) m = mem-append_left (contents bs) m
member n b _ (there {x = x} {bs = bs} s d spot) m =
    mem-append_right x.elements (member n b bs spot m)

-- `getNode` returns on every valid tree: a node of the tree with the identifier, or none when no
-- node of any bucket has it.
pub get_node-Found :
    (d : NodeData) (t : NodeTree)
    → IsNodeData d
    → IsTree t
    → (o : Option Node) × (get_node d t ≡ returns o) × Found d (contents t.buckets) o
get_node-Found d t hd v =
    (find d f.bucket, unfold get_node in rw f.found refl, go (find-Found d f.bucket))
  where
    f : Finds 0 d t.buckets
    f = find_bucket-Finds 0 d t.buckets hd (omega arith) v.tiles

    go :
        Found d f.bucket.elements (find d f.bucket) → Found d (contents t.buckets) (find d f.bucket)
    go (hit n e m same) = hit n e (member n f.bucket t.buckets f.spot m) same
    go (miss e all) =
        miss e (nowhere d f.bucket 0 t.buckets f.spot f.tile f.above_low f.below_high v.tiles all)
