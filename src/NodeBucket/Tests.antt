-- ===== src/NodeBucket/Tests.antt =====
-- The theorems on buckets at a concrete bucket.
use torrent_sync.Common.{ℕ, ◌≡◌, refl, true, none, [], ◌∷◌, returns, arith}
use torrent_sync.NodeData.{gt, lt}
use torrent_sync.Node.{Node, is_bad}
use torrent_sync.NodeBucket.{NodeBucket, insert, add, remove, find}
use torrent_sync.NodeBucket.Order.{IsBucket}
use torrent_sync.NodeBucket.Lookup.{Found, find-Found}
use torrent_sync.NodeBucket.Removing.{remove-IsBucket}

abbrev node_at : ℕ → Node
node_at p3 = record {
  id = record { p1 = 0; p2 = 0; p3 = p3 };
  last_time_good = 0;
  last_unanswered_queries = 11;
  endpoint = none;
}

abbrev two_nodes : NodeBucket
two_nodes = record {
  low = record { p1 = 0; p2 = 0; p3 = 0 };
  high = record { p1 = 0; p2 = 0; p3 = 15 };
  elements = node_at 3 ∷ node_at 9 ∷ [];
}

two_nodes-IsBucket : IsBucket 2 two_nodes
two_nodes-IsBucket = record {
  bounds = record { low_words = omega arith; high_words = omega arith; ordered = omega arith };
  within = omega arith;
  sorted = omega arith;
  capacity = omega arith;
}

-- Both nodes are bad, so the full bucket has room.
run_add :
    add 2 1000 (node_at 5) two_nodes
    ≡ returns (true, record two_nodes { elements = node_at 5 ∷ [] })
unfolding add gt lt is_bad insert
run_add = refl

find-Found_example : Found (node_at 9).id two_nodes.elements (find (node_at 9).id two_nodes)
find-Found_example = find-Found (node_at 9).id two_nodes

remove-IsBucket_example : IsBucket 2 (remove (node_at 3).id two_nodes).1
remove-IsBucket_example = remove-IsBucket 2 (node_at 3).id two_nodes two_nodes-IsBucket
