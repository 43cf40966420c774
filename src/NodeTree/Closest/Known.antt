-- ===== src/NodeTree/Closest/Known.antt =====
-- The set of the known nodes: every node that is inserted stays, in the order of the distances.
use mathlib.Core.List.{Perm, append_assoc, perm_append_comm}
use mathlib.Core.List.Perm
use torrent_sync.Common.{
  subst, ◌≤◌, ◌≡◌, refl, inl, inr, true, false, Bool-cases, Option, none, some, List, [], ◌∷◌, ◌++◌,
  All, All-imp, arith,
}
use torrent_sync.NodeData.{NodeData, IsNodeData}
use torrent_sync.Node.{Node}
use torrent_sync.NodeBucket.{NodeBucket}
use torrent_sync.NodeTree.Contents.{contents}
use torrent_sync.NodeTree.Closest.{
  closer, place, insert_after, insert_known, insert_all, insert_buckets,
}
use torrent_sync.NodeTree.Closest.Distances.{far, IsByDistance, closer_iff}

abbrev pub IsKnown : Node → Type 0
IsKnown n = IsNodeData n.id

-- The comparison lets the new node follow the one before it.
abbrev Before : NodeData → Option Node → Node → Type 0
Before d none n = Unit {0}
Before d (some x) n = closer d x n ≡ true

place_taken :
    {A : Type 0} (d : NodeData) (before : Option Node) (n : Node) (a b : A)
    → Before d before n
    → place d before n a b ≡ a
unfolding place
place_taken d none n a b h = refl
place_taken d (some x) n a b h = rw h refl

-- Of two nodes one is at most as far as the other.
one_closer :
    (d : NodeData) (n x : Node)
    → IsNodeData d
    → IsKnown n
    → IsKnown x
    → closer d n x ≡ false
    → (closer d x n ≡ true) × (far d x ≤ far d n)
one_closer d n x hd hn hx e =
    let below : far d x ≤ far d n = ground (arith, closer_iff d n x hd hn hx) in
    ((closer_iff d x n hd hx hn).1 below, below)

insert_after-perm :
    (d : NodeData) (before : Option Node) (n : Node) (xs : List Node)
    → IsNodeData d
    → IsKnown n
    → All IsKnown xs
    → Before d before n
    → Perm (insert_after d before n xs) (n ∷ xs)
unfolding insert_after
insert_after-perm d before n [] hd hn hs h =
    rw (place_taken d before n (n ∷ []) [] h) (Perm.refl (n ∷ []))
insert_after-perm d before n (x ∷ xs) hd hn hs h = elim (Bool-cases (closer d n x)) [
  | inl e ↦ rw (e, place_taken d before n (n ∷ x ∷ xs) (x ∷ xs) h) (Perm.refl (n ∷ x ∷ xs))
  | inr e ↦ rw e (
      Perm.trans
        (Perm.cons x
          (insert_after-perm d (some x) n xs hd hn hs.1 (one_closer d n x hd hn hs.0 e).0))
        (Perm.swap n x xs))
]

insert_after-All :
    (P : Node → Type 0) (d : NodeData) (before : Option Node) (n : Node) (xs : List Node)
    → IsNodeData d
    → IsKnown n
    → All IsKnown xs
    → Before d before n
    → P n
    → All P xs
    → All P (insert_after d before n xs)
unfolding insert_after
insert_after-All P d before n [] hd hn hs h pn p =
    rw (place_taken d before n (n ∷ []) [] h) (pn, tt)
insert_after-All P d before n (x ∷ xs) hd hn hs h pn p = elim (Bool-cases (closer d n x)) [
  | inl e ↦ rw (e, place_taken d before n (n ∷ x ∷ xs) (x ∷ xs) h) (pn, p)
  | inr e ↦
      rw e (
        p.0,
        insert_after-All P d (some x) n xs hd hn hs.1 (one_closer d n x hd hn hs.0 e).0 pn p.1,
      )
]

insert_after-IsByDistance :
    (d : NodeData) (before : Option Node) (n : Node) (xs : List Node)
    → IsNodeData d
    → IsKnown n
    → All IsKnown xs
    → Before d before n
    → IsByDistance d xs
    → IsByDistance d (insert_after d before n xs)
unfolding insert_after
insert_after-IsByDistance d before n [] hd hn hs h s =
    rw (place_taken d before n (n ∷ []) [] h) (tt, tt)
insert_after-IsByDistance d before n (x ∷ xs) hd hn hs h s = elim (Bool-cases (closer d n x)) [
  | inl e ↦
      let near = (closer_iff d n x hd hn hs.0).0 e in
      rw (e, place_taken d before n (n ∷ x ∷ xs) (x ∷ xs) h)
        (
          (
            near,
            All-imp (λ y. far d x ≤ far d y) (λ y. far d n ≤ far d y)
                (λ y k. omega (arith, near, k)) xs s.0,
          ),
          s,
        )
  | inr e ↦
      let one = one_closer d n x hd hn hs.0 e in
      rw e (
        insert_after-All (λ y. far d x ≤ far d y) d (some x) n xs hd hn hs.1 one.0 one.1 s.0,
        insert_after-IsByDistance d (some x) n xs hd hn hs.1 one.0 s.1,
      )
]

-- What the insertions keep: the nodes that were there and the new ones, by distance.
pub record Kept (d : NodeData) (news known after : List Node) : Type 0 where
  pub perm : Perm after (news ++ known)
  pub all_known : All IsKnown after
  pub by_distance : IsByDistance d after

insert_known-Kept :
    (d : NodeData) (n : Node) (known : List Node)
    → IsNodeData d
    → IsKnown n
    → All IsKnown known
    → IsByDistance d known
    → Kept d (n ∷ []) known (insert_known d n known)
unfolding insert_known
insert_known-Kept d n known hd hn hs s = record {
  perm = insert_after-perm d none n known hd hn hs tt;
  all_known = insert_after-All IsKnown d none n known hd hn hs tt hn hs;
  by_distance = insert_after-IsByDistance d none n known hd hn hs tt s;
}

Kept-trans :
    (d : NodeData) (xs ys known middle after : List Node)
    → Kept d xs known middle
    → Kept d ys middle after
    → Kept d (xs ++ ys) known after
Kept-trans d xs ys known middle after p q = record {
  perm = Perm.trans q.perm (
      Perm.trans (Perm.append_left ys p.perm) (
        subst (λ l. Perm l ((xs ++ ys) ++ known)) (append_assoc ys xs known)
          (Perm.append_right known (perm_append_comm ys xs))));
  all_known = q.all_known;
  by_distance = q.by_distance;
}

insert_all-Kept :
    (d : NodeData) (ns known : List Node)
    → IsNodeData d
    → All IsKnown ns
    → All IsKnown known
    → IsByDistance d known
    → Kept d ns known (insert_all d ns known)
unfolding insert_all
insert_all-Kept d [] known hd hn hs s = record {
  perm = Perm.refl known;
  all_known = hs;
  by_distance = s;
}
insert_all-Kept d (n ∷ ns) known hd hn hs s =
    let first = insert_known-Kept d n known hd hn.0 hs s in
    Kept-trans d (n ∷ []) ns known (insert_known d n known)
      (insert_all d ns (insert_known d n known)) first
      (insert_all-Kept d ns (insert_known d n known) hd hn.1 first.all_known first.by_distance)

pub insert_buckets-Kept :
    (d : NodeData) (bs : List NodeBucket) (known : List Node)
    → IsNodeData d
    → All (λ b. All IsKnown b.elements) bs
    → All IsKnown known
    → IsByDistance d known
    → Kept d (contents bs) known (insert_buckets d bs known)
unfolding insert_buckets
insert_buckets-Kept d [] known hd hn hs s = record {
  perm = Perm.refl known;
  all_known = hs;
  by_distance = s;
}
insert_buckets-Kept d (b ∷ bs) known hd hn hs s =
    let first = insert_all-Kept d b.elements known hd hn.0 hs s in
    let rest = insert_all d b.elements known in
    Kept-trans d b.elements (contents bs) known rest (insert_buckets d bs rest) first
      (insert_buckets-Kept d bs rest hd hn.1 first.all_known first.by_distance)
