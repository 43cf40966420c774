-- ===== src/NodeTree/Contents.antt =====
-- The nodes that the buckets of the set hold, as a list up to permutation.
use mathlib.Core.List.{Perm}
use mathlib.Core.List.Perm
use torrent_sync.Common.{ℕ, ◌+◌, ◌≡◌, List, [], ◌∷◌, ◌++◌}
use torrent_sync.NodeData.{value}
use torrent_sync.Node.{Node}
use torrent_sync.NodeBucket.{NodeBucket}
use torrent_sync.NodeTree.{erase_bucket, write_back}
use torrent_sync.NodeBucket.Content.{append_left_comm}
use torrent_sync.NodeTree.Tiling.{IsTile, Tiles, Spot, here, there}
use torrent_sync.NodeTree.Updates.{
  Cover, halved, halved_here, halved_there, write_back_here, write_back_there, erase_here,
  erase_there,
}

abbrev pub contents : List NodeBucket → List Node
contents [] = []
contents (b ∷ bs) = b.elements ++ contents bs

-- The nodes of the other buckets.
abbrev pub others : NodeBucket → List NodeBucket → List Node
others b bs = contents (erase_bucket b bs)

pub contents-Spot :
    (b : NodeBucket) (bs : List NodeBucket)
    → Spot b bs
    → Perm (contents bs) (b.elements ++ others b bs)
contents-Spot b _ (here {bs = bs}) = rw (erase_here b bs) (Perm.refl (b.elements ++ contents bs))
contents-Spot b _ (there {x = x} {bs = bs} s d spot) = rw (erase_there b x bs d) (
    Perm.trans (Perm.append_left x.elements (contents-Spot b bs spot))
      (append_left_comm x.elements b.elements (others b bs)))

pub contents-write_back :
    (b' b : NodeBucket) (bs : List NodeBucket)
    → Spot b bs
    → b'.low ≡ b.low
    → b'.high ≡ b.high
    → Perm (contents (write_back b' bs)) (b'.elements ++ others b bs)
contents-write_back b' b _ (here {bs = bs}) l h =
    rw (erase_here b bs, write_back_here b' b bs l h) (Perm.refl (b'.elements ++ contents bs))
contents-write_back b' b _ (there {x = x} {bs = bs} s d spot) l h =
    rw (erase_there b x bs d, write_back_there b' b x bs l h d)
      (Perm.trans (Perm.append_left x.elements (contents-write_back b' b bs spot l h))
        (append_left_comm x.elements b'.elements (others b bs)))

pub contents-halved :
    (b lower upper : NodeBucket) (from : ℕ) (bs : List NodeBucket)
    → Spot b bs
    → Cover b lower upper
    → IsTile b
    → Tiles from bs
    → Perm (contents (halved b lower upper bs)) (lower.elements ++ (upper.elements ++ others b bs))
contents-halved b lower upper from _ (here {bs = bs}) c hb t =
    rw (halved_here from b lower upper bs c t, erase_here b bs)
      (Perm.refl (lower.elements ++ (upper.elements ++ contents bs)))
contents-halved b lower upper from _ (there {x = x} {bs = bs} s d spot) c hb t =
    rw (halved_there b lower upper x bs c t.1 hb s d, erase_there b x bs d)
      (Perm.trans
        (Perm.append_left x.elements
          (contents-halved b lower upper (value x.high + 1) bs spot c hb t.2))
        (Perm.trans (append_left_comm x.elements lower.elements (upper.elements ++ others b bs)) (
          Perm.append_left lower.elements
            (append_left_comm x.elements upper.elements (others b bs)))))
