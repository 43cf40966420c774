-- ===== src/NodeTree/Closest/Nearest.antt =====
-- `getClosestNodes`: a node with the identifier alone, or the nearest nodes of the bucket that the
-- identifier lies in and of its two neighbours.
use mathlib.Core.List.{Mem, Perm, append-nil}
use mathlib.Core.List.Perm
use torrent_sync.Common.{
  ◌∙◌, sym, ap, subst, ℕ, zero, suc, ◌+◌, ◌≤◌, ◌≡◌, ◌≢◌, refl, inl, inr, Bool-cases, Option, none,
  some, List, [], ◌∷◌, ◌++◌, All, All-imp, All-take, All-drop, take, drop, take-append-drop, min,
  length, length-append, length-take, Outcome, returns, arith,
}
use torrent_sync.NodeData.{NodeData, IsNodeData, value, lt}
use torrent_sync.Node.{Node}
use torrent_sync.NodeBucket.{NodeBucket, empty_bucket, find_node}
use torrent_sync.NodeBucket.Order.{IsWithin}
use torrent_sync.NodeBucket.Content.{length-perm}
use torrent_sync.NodeBucket.Lookup.{Found, hit, miss, find_node-Found}
use torrent_sync.NodeTree.{NodeTree, find_bucket, sort_by_bounds}
use torrent_sync.NodeTree.Tiling.{Tiles, IsTree, Finds, find_bucket-Finds, find_bucket_cons}
use torrent_sync.NodeTree.Contents.{contents}
use torrent_sync.NodeTree.Lookup.{member, nowhere}
use torrent_sync.NodeTree.Closest.{
  back_one, from_left, visited, insert_buckets, closest_or_match, get_closest_nodes,
}
use torrent_sync.NodeTree.Closest.Distances.{far, IsByDistance}
use torrent_sync.NodeTree.Closest.Known.{IsKnown, Kept, insert_buckets-Kept}

-- A bucket of the set between one to its left and at most one to its right.
pub record Inner (b : NodeBucket) (all window : List NodeBucket) : Type 0 where
  pub left : NodeBucket
  pub before : List NodeBucket
  pub rest : List NodeBucket
  pub all_split : all ≡ before ++ left ∷ b ∷ rest
  pub window_split : window ≡ left ∷ b ∷ take 1 rest

-- A bucket of the set and its neighbours, at most three; the first bucket has none to its left.
pub data Window (b : NodeBucket) (all window : List NodeBucket) : Type 0 where
  first : (rest : List NodeBucket) → all ≡ b ∷ rest → window ≡ b ∷ take 2 rest → Window b all window
  inner : Inner b all window → Window b all window

returned : {a b : NodeBucket} → returns a ≡ returns b → a ≡ b
returned h = cc

from_left-Inner :
    (d : NodeData) (x b : NodeBucket) (bs : List NodeBucket)
    → find_bucket d bs ≡ returns b
    → Inner b (x ∷ bs) (take 3 (from_left (empty_bucket d d) (some x) bs))
unfolding from_left back_one sort_by_bounds
from_left-Inner d x b [] h = absurd (unfold find_bucket in cc)
from_left-Inner d x b (c ∷ cs) h = elim (Bool-cases (lt c.high d)) [
  | inl e ↦
      let r = from_left-Inner d c b cs (sym (find_bucket_cons d c cs ∙ rw e refl) ∙ h) in
      rw e (record {
        left = r.left;
        before = x ∷ r.before;
        rest = r.rest;
        all_split = ap (λ l. x ∷ l) r.all_split;
        window_split = r.window_split;
      })
  | inr e ↦
      let same : c ≡ b = returned (sym (find_bucket_cons d c cs ∙ rw e refl) ∙ h) in
      rw e (record {
        left = x;
        before = [];
        rest = cs;
        all_split = ap (λ y. x ∷ y ∷ cs) same;
        window_split = ap (λ y. x ∷ y ∷ take 1 cs) same;
      })
]

from_left-Window :
    (d : NodeData) (b : NodeBucket) (bs : List NodeBucket)
    → find_bucket d bs ≡ returns b
    → Window b bs (take 3 (from_left (empty_bucket d d) none bs))
unfolding from_left back_one sort_by_bounds
from_left-Window d b [] h = absurd (unfold find_bucket in cc)
from_left-Window d b (c ∷ cs) h = elim (Bool-cases (lt c.high d)) [
  | inl e ↦ rw e (inner (from_left-Inner d c b cs (sym (find_bucket_cons d c cs ∙ rw e refl) ∙ h)))
  | inr e ↦
      let same : c ≡ b = returned (sym (find_bucket_cons d c cs ∙ rw e refl) ∙ h) in
      rw e (first cs (ap (λ y. y ∷ cs) same) (ap (λ y. y ∷ take 2 cs) same))
]

visited-Window :
    (d : NodeData) (b : NodeBucket) (t : NodeTree)
    → find_bucket d t.buckets ≡ returns b
    → Window b t.buckets (visited d t)
unfolding visited
visited-Window d b t h = from_left-Window d b t.buckets h

abbrev AllKnown : NodeBucket → Type 0
AllKnown b = All IsKnown b.elements

elements_known : (from : ℕ) (bs : List NodeBucket) → Tiles from bs → All AllKnown bs
elements_known from [] t = tt
elements_known from (b ∷ bs) t = (
  All-imp (IsWithin b.low b.high) IsKnown (λ n w. w.0) b.elements t.1.bucket.within,
  elements_known (value b.high + 1) bs t.2,
)

from_left_known :
    (key : NodeBucket) (left : Option NodeBucket) (bs : List NodeBucket)
    → All AllKnown (back_one left bs)
    → All AllKnown bs
    → All AllKnown (from_left key left bs)
unfolding from_left
from_left_known key left [] h k = h
from_left_known key left (b ∷ bs) h k = elim (Bool-cases (sort_by_bounds b key)) [
  | inl e ↦ rw e (from_left_known key (some b) bs (unfold back_one in k) k.1)
  | inr e ↦ rw e h
]

visited_known : (d : NodeData) (t : NodeTree) → Tiles 0 t.buckets → All AllKnown (visited d t)
unfolding visited
visited_known d t tiles =
    let k = elements_known 0 t.buckets tiles in
    All-take AllKnown 3 (from_left (empty_bucket d d) none t.buckets)
      (from_left_known (empty_bucket d d) none t.buckets (unfold back_one in k) k)

-- A cut of a list that is in order: nothing behind the cut is nearer than what stands before it.
cut :
    (d : NodeData) (k : ℕ) (xs : List Node)
    → IsByDistance d xs
    → IsByDistance d (take k xs) × All (λ x. All (λ y. far d x ≤ far d y) (drop k xs)) (take k xs)
cut d zero xs s = (tt, tt)
cut d (suc k) [] s = (tt, tt)
cut d (suc k) (x ∷ xs) s =
    let r = cut d k xs s.1 in
    (
      (All-take (λ y. far d x ≤ far d y) k xs s.0, r.0),
      (All-drop (λ y. far d x ≤ far d y) k xs s.0, r.1),
    )

-- What `getClosestNodes` returns.
pub data Closest (d : NodeData) (t : NodeTree) : Outcome (List Node) → Type 0 where
  perfect :
      {r : Outcome (List Node)} (n : Node)
      → r ≡ returns (n ∷ [])
      → Mem n (contents t.buckets)
      → n.id ≡ d
      → Closest d t r
  nearest :
      {r : Outcome (List Node)} (b : NodeBucket) (ns others : List Node)
      → r ≡ returns ns
      → All (λ n. n.id ≢ d) (contents t.buckets)
      → (value b.low ≤ value d) × (value d ≤ value b.high)
      → Window b t.buckets (visited d t)
      → Perm (contents (visited d t)) (ns ++ others)
      → length ns ≡ min 8 (length (contents (visited d t)))
      → IsByDistance d ns
      → All (λ x. All (λ y. far d x ≤ far d y) others) ns
      → Closest d t r

-- On a valid tree `getClosestNodes` always returns. If a node has the identifier, one such node
-- is returned alone. If none has it, the nodes returned are the nearest of the nodes of the bucket
-- in whose bounds the identifier lies and of the buckets next to it: eight or all of them, by
-- distance, with no other node of these buckets nearer than any of them.
pub get_closest_nodes-Closest :
    (d : NodeData) (t : NodeTree) → IsNodeData d → IsTree t → Closest d t (get_closest_nodes d t)
get_closest_nodes-Closest d t hd v = go (find_node-Found d f.bucket.elements)
  where
    f : Finds 0 d t.buckets
    f = find_bucket-Finds 0 d t.buckets hd (omega arith) v.tiles

    known : List Node
    known = insert_buckets d (visited d t) []

    kept : Kept d (contents (visited d t)) [] known
    kept = insert_buckets-Kept d (visited d t) [] hd (visited_known d t v.tiles) tt tt

    go :
        Found d f.bucket.elements (find_node d f.bucket.elements)
        → Closest d t (get_closest_nodes d t)
    go (hit n e m same) =
        perfect {r = get_closest_nodes d t} n
          (unfold get_closest_nodes closest_or_match in rw (f.found, e) refl)
          (member n f.bucket t.buckets f.spot m) same
    go (miss e all) =
        nearest {r = get_closest_nodes d t} f.bucket (take 8 known) (drop 8 known)
          (unfold get_closest_nodes closest_or_match in rw (f.found, e) refl)
          (nowhere d f.bucket 0 t.buckets f.spot f.tile f.above_low f.below_high v.tiles all)
          (f.above_low, f.below_high) (visited-Window d f.bucket t f.found) split
          (omega (
            arith,
            length-take 8 known,
            length-perm (contents (visited d t)) (take 8 known ++ drop 8 known) split,
            length-append (take 8 known) (drop 8 known),
            ap length (take-append-drop 8 known),
          ))
          (cut d 8 known kept.by_distance).0 (cut d 8 known kept.by_distance).1
      where
        split : Perm (contents (visited d t)) (take 8 known ++ drop 8 known)
        split =
            subst (λ l. Perm (contents (visited d t)) l) (sym (take-append-drop 8 known))
              (Perm.symm
                (subst (λ l. Perm known l) (append-nil (contents (visited d t))) kept.perm))
