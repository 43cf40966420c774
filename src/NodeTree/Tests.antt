-- ===== src/NodeTree/Tests.antt =====
-- The theorems on the tree at concrete trees.
use torrent_sync.Common.{
  ℕ, zero, suc, ◌*◌, ◌^◌, ◌≡◌, refl, Option, none, some, List, [], ◌∷◌, Outcome, returns, ◌>>=◌,
  arith,
}
use torrent_sync.NodeData.{NodeData}
use torrent_sync.NodeData.Codec.{max_value}
use torrent_sync.Node.{Node}
use torrent_sync.NodeBucket.{NodeBucket}
use torrent_sync.NodeTree.{
  Halved, NodeTree, make_tree, add_node, remove_node, get_node, split, size, get_buckets_count,
}
use torrent_sync.NodeTree.Tiling.{IsTree}
use torrent_sync.NodeTree.Contents.{contents}
use torrent_sync.NodeTree.AddNode.{TreeAdded, add_node-TreeAdded}
use torrent_sync.NodeTree.Lookup.{get_node-Found}
use torrent_sync.NodeTree.Removal.{NodeRemoved, remove_node-NodeRemoved, make_tree-IsTree}
use torrent_sync.NodeTree.Histories.{Call, adds, removes, clears, History, perform_calls-History}
use torrent_sync.NodeTree.Closest.{get_closest_nodes}
use torrent_sync.NodeTree.Closest.Nearest.{Closest, get_closest_nodes-Closest}
use torrent_sync.NodeBucket.Lookup.{Found}

abbrev own_id : NodeData
own_id = record { p1 = 0; p2 = 0; p3 = 0 }

abbrev node_at : ℕ → Node
node_at p1 = record {
  id = record { p1 = p1; p2 = 0; p3 = 0 };
  last_time_good = 100;
  last_unanswered_queries = 0;
  endpoint = none;
}

-- `n` nodes, each added to the tree.
add_many : ℕ → NodeTree → Outcome NodeTree
unfolding add_node
add_many zero t = returns t
add_many (suc n) t = add_node 100 (some (node_at (n * 2 ^ 60))) t >>= λ r. add_many n r.1

-- The numbers of the buckets and of the nodes.
counts : NodeTree → Outcome (ℕ × ℕ)
unfolding get_buckets_count size
counts t = returns (get_buckets_count t, size t)

-- With nine nodes the first bucket is split.
run_add_node : (add_many 9 (make_tree own_id) >>= counts) ≡ returns (2, 9)
unfolding add_many make_tree counts torrent_sync.NodeTree.add_to_buckets
    torrent_sync.NodeTree.find_bucket torrent_sync.NodeTree.sort_by_bounds torrent_sync.NodeData.lt
    torrent_sync.NodeBucket.in_bounds torrent_sync.NodeData.le torrent_sync.NodeBucket.add
    torrent_sync.NodeData.gt torrent_sync.NodeTree.write_back torrent_sync.NodeData.eq
    torrent_sync.NodeBucket.insert torrent_sync.Node.is_bad torrent_sync.NodeTree.split_and_add
    split torrent_sync.NodeData.Split.split_in_half torrent_sync.NodeData.Split.is_full
    torrent_sync.NodeData.Split.common_mask torrent_sync.Node.is_good
    torrent_sync.NodeBucket.add_if_room torrent_sync.NodeBucket.find_greater
    torrent_sync.NodeBucket.good_ones torrent_sync.NodeBucket.remove_bad
    torrent_sync.NodeData.Split.new_bit add_node torrent_sync.NodeTree.add_to_half
    torrent_sync.NodeTree.clear torrent_sync.NodeTree.distribute torrent_sync.NodeTree.erase_bucket
    get_buckets_count torrent_sync.NodeTree.insert_bucket torrent_sync.NodeTree.lower_bound
    torrent_sync.NodeTree.replace_by_halves size torrent_sync.NodeTree.sizes
run_add_node = refl

own_id-IsTree : IsTree (make_tree own_id)
own_id-IsTree = (make_tree-IsTree own_id (omega arith)).0

make_tree-IsTree_example :
    IsTree (make_tree max_value) × (contents (make_tree max_value).buckets ≡ [])
make_tree-IsTree_example = make_tree-IsTree max_value (omega arith)

add_node-TreeAdded_example :
    TreeAdded 100
      (node_at 5)
      (make_tree own_id)
      (add_node 100 (some (node_at 5)) (make_tree own_id))
add_node-TreeAdded_example =
    add_node-TreeAdded 100 (node_at 5) (make_tree own_id) (omega arith) own_id-IsTree

get_node-Found_example :
    (o : Option Node) × (get_node (node_at 5).id (make_tree own_id) ≡ returns o)
    × Found (node_at 5).id (contents (make_tree own_id).buckets) o
get_node-Found_example =
    get_node-Found (node_at 5).id (make_tree own_id) (omega arith) own_id-IsTree

remove_node-NodeRemoved_example :
    NodeRemoved
      (node_at 5).id
      (make_tree own_id)
      (remove_node (some (node_at 5)) (make_tree own_id))
remove_node-NodeRemoved_example =
    remove_node-NodeRemoved (node_at 5) (make_tree own_id) (omega arith) own_id-IsTree

get_closest_nodes-Closest_example :
    Closest (node_at 5).id (make_tree own_id) (get_closest_nodes (node_at 5).id (make_tree own_id))
get_closest_nodes-Closest_example =
    get_closest_nodes-Closest (node_at 5).id (make_tree own_id) (omega arith) own_id-IsTree

abbrev some_calls : List Call
some_calls =
    adds 100 (node_at 5)
    ∷ adds 101 (node_at 7)
    ∷ removes (node_at 5)
    ∷ clears
    ∷ adds 102 (node_at 9)
    ∷ []

perform_calls-History_example : History some_calls (make_tree own_id)
perform_calls-History_example =
    perform_calls-History some_calls (make_tree own_id)
      (omega arith, (omega arith, (omega arith, (tt, (omega arith, tt))))) own_id-IsTree
