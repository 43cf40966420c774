-- ===== src/NodeTree/Closest.antt =====
-- `getClosestNodes` of torrentsync/dht/NodeTree.cpp. Its `std::set` of nodes is ordered by `<=` on
-- the distances, and an insertion is the walk of the standard library down a tree in that order.
pub mod Distances
pub mod Known
pub mod Nearest
use torrent_sync.Common.{
  ℕ, zero, suc, Bool, true, false, if◌then◌else◌, Option, none, some, List, [], ◌∷◌, ◌++◌, take,
  Outcome, returns, aborts, ◌>>=◌,
}
use torrent_sync.NodeData.{NodeData, le, distance}
use torrent_sync.Node.{Node}
use torrent_sync.NodeBucket.{NodeBucket, empty_bucket, find_node}
use torrent_sync.NodeTree.{NodeTree, dht_find_node_count, sort_by_bounds, find_bucket}

-- The comparison of the set.
unfoldable pub closer : NodeData → Node → Node → Bool
closer d x y = le (distance x.id d) (distance y.id d)

-- The place is taken unless the comparison says that the node before it is equivalent.
unfoldable pub place : {A : Type 0} → NodeData → Option Node → Node → A → A → A
place d none n taken kept = taken
place d (some x) n taken kept = if closer d x n then taken else kept

-- `std::set::insert`: the place before the first node that the new one precedes.
unfoldable pub insert_after : NodeData → Option Node → Node → List Node → List Node
insert_after d before n [] = place d before n (n ∷ []) []
insert_after d before n (x ∷ xs) =
    if closer d n x
    then place d before n (n ∷ x ∷ xs) (x ∷ xs)
    else x ∷ insert_after d (some x) n xs

unfoldable pub insert_known : NodeData → Node → List Node → List Node
unfolding insert_after
insert_known d n known = insert_after d none n known

unfoldable pub insert_all : NodeData → List Node → List Node → List Node
unfolding insert_known
insert_all d [] known = known
insert_all d (n ∷ ns) known = insert_all d ns (insert_known d n known)

-- The loop over the buckets.
unfoldable pub insert_buckets : NodeData → List NodeBucket → List Node → List Node
unfolding insert_all
insert_buckets d [] known = known
insert_buckets d (b ∷ bs) known = insert_buckets d bs (insert_all d b.elements known)

-- `--bucket_it` from the bucket that is found, unless it is the first.
unfoldable pub back_one : Option NodeBucket → List NodeBucket → List NodeBucket
back_one none bs = bs
back_one (some x) bs = x ∷ bs

unfoldable pub from_left : NodeBucket → Option NodeBucket → List NodeBucket → List NodeBucket
unfolding back_one
from_left key left [] = back_one left []
from_left key left (b ∷ bs) =
    if sort_by_bounds b key then from_left key (some b) bs else back_one left (b ∷ bs)

-- The buckets whose nodes are compared: the found one and its neighbours.
unfoldable pub visited : NodeData → NodeTree → List NodeBucket
unfolding from_left
visited d t = take 3 (from_left (empty_bucket d d) none t.buckets)

-- The nodes that are returned, given the result of the search for a perfect match.
unfoldable pub closest_or_match : NodeData → NodeTree → Option Node → List Node
unfolding visited insert_buckets
closest_or_match d t (some n) = n ∷ []
closest_or_match d t none = take dht_find_node_count (insert_buckets d (visited d t) [])

unfoldable pub get_closest_nodes : NodeData → NodeTree → Outcome (List Node)
unfolding closest_or_match
get_closest_nodes d t =
    find_bucket d t.buckets >>= λ b. returns (closest_or_match d t (find_node d b.elements))
