-- ===== src/NodeTree.antt =====
-- torrentsync/dht/NodeTree.h and NodeTree.cpp: buckets that tile the space of identifiers, in a
-- `std::set` ordered by their bounds. The set is a list in the order of iteration. A `BucketSPtr`
-- is the bucket that it points to; what is changed through the pointer is written back to the
-- bucket of the set with the same bounds, which no operation changes. The mutex makes each
-- operation one step.
pub mod Tests
pub mod Tiling
pub mod Updates
pub mod Contents
pub mod Splitting
pub mod Adding
pub mod AddNode
pub mod Lookup
pub mod Removal
pub mod Histories
pub mod Closest
use torrent_sync.Common.{
  ℕ, zero, suc, ◌+◌, Bool, true, false, ◌&&◌, ◌||◌, not, ltb, ◌==◌, if◌then◌else◌, Option, none,
  some, List, [], ◌∷◌, ◌++◌, length, take, Outcome, returns, throws, aborts, invalid_argument,
  assert, ◌>>=◌, ◌>>◌,
}
use torrent_sync.NodeData.{NodeData, eq, lt, le, distance}
use torrent_sync.NodeData.Codec.{min_value, max_value}
use torrent_sync.NodeData.Split.{split_in_half}
use torrent_sync.Node.{Node}
use torrent_sync.NodeBucket.{NodeBucket, empty_bucket, in_bounds, find_node}
use torrent_sync.NodeBucket

-- `DHT_K` and `DHT_FIND_NODE_COUNT`.
abbrev pub dht_k : ℕ
dht_k = 8

abbrev pub dht_find_node_count : ℕ
dht_find_node_count = 8

pub record NodeTree : Type 0 where
  pub buckets : List NodeBucket
  pub node : NodeData

unfoldable pub sort_by_bounds : NodeBucket → NodeBucket → Bool
sort_by_bounds x y = lt x.high y.low

-- `lower_bound`: the first bucket that does not stand before the key; `end()` is `none`.
pub lower_bound : NodeBucket → List NodeBucket → Option NodeBucket
lower_bound key [] = none
lower_bound key (b ∷ bs) = if sort_by_bounds b key then lower_bound key bs else some b

-- `std::set::insert`, which keeps an equivalent bucket that is there.
pub insert_bucket : NodeBucket → List NodeBucket → List NodeBucket
insert_bucket x [] = x ∷ []
insert_bucket x (b ∷ bs) =
    if sort_by_bounds b x
    then b ∷ insert_bucket x bs
    else if sort_by_bounds x b
    then x ∷ b ∷ bs
    else b ∷ bs

abbrev pub same_bounds : NodeBucket → NodeBucket → Bool
same_bounds x y = eq x.low y.low && eq x.high y.high

pub erase_bucket : NodeBucket → List NodeBucket → List NodeBucket
erase_bucket x [] = []
erase_bucket x (b ∷ bs) = if same_bounds b x then bs else b ∷ erase_bucket x bs

-- The set after a change of one bucket through its pointer.
pub write_back : NodeBucket → List NodeBucket → List NodeBucket
write_back x [] = []
write_back x (b ∷ bs) = if same_bounds b x then x ∷ bs else b ∷ write_back x bs

-- `findBucket`; `it != _buckets.end()` is asserted.
pub find_bucket : NodeData → List NodeBucket → Outcome NodeBucket
unfolding lower_bound
find_bucket d bs = elim (lower_bound (empty_bucket d d) bs) [ none ↦ aborts | some b ↦ returns b ]

-- The loop of `split`: each node goes to the half that it lies in.
pub distribute : ℕ → List Node → NodeBucket → NodeBucket → Outcome (NodeBucket × NodeBucket)
distribute now [] lower upper = returns (lower, upper)
distribute now (x ∷ xs) lower upper =
    if in_bounds lower x.id
    then (NodeBucket.add dht_k now x lower >>= λ r. distribute now xs r.1 upper)
    else (assert (in_bounds upper x.id) >>= λ _.
        NodeBucket.add dht_k now x upper >>= λ r. distribute now xs lower r.1)

-- The two halves, and the set with them in place of the bucket.
abbrev pub Halved : Type 0
Halved = NodeBucket × NodeBucket × List NodeBucket

pub replace_by_halves :
    ℕ → NodeBucket → NodeData → NodeData → List NodeBucket → Outcome (Option Halved)
replace_by_halves now b half_low half_high bs = do
  (lower, upper) ←
      distribute now b.elements (empty_bucket b.low half_low) (empty_bucket half_high b.high)
  assert (NodeBucket.size upper + NodeBucket.size lower == NodeBucket.size b)
  returns (some (lower, upper, insert_bucket lower (insert_bucket upper (erase_bucket b bs))))

-- `split`; `none` is a bucket that cannot be split.
pub split : ℕ → NodeBucket → List NodeBucket → Outcome (Option Halved)
unfolding replace_by_halves
split now b bs = elim (split_in_half b.low b.high) [
  | none ↦ returns none
  | some (half_low, half_high) ↦ replace_by_halves now b half_low half_high bs
]

-- The end of `addNode`: the half that the node lies in is tried.
pub add_to_half : ℕ → Node → Halved → Outcome (Bool × List NodeBucket)
add_to_half now n (lower, upper, bs) =
    assert (in_bounds lower n.id || in_bounds upper n.id) >>= λ _.
    if in_bounds lower n.id
    then (NodeBucket.add dht_k now n lower >>= λ r. returns (r.0, write_back r.1 bs))
    else (assert (in_bounds upper n.id) >>= λ _.
        NodeBucket.add dht_k now n upper >>= λ r. returns (r.0, write_back r.1 bs))

-- A full bucket that holds the table's own identifier is split, once.
pub split_and_add : ℕ → Node → NodeBucket → List NodeBucket → Outcome (Bool × List NodeBucket)
unfolding add_to_half
split_and_add now n b bs =
    split now b bs >>= λ m. elim m [ none ↦ returns (false, bs) | some h ↦ add_to_half now n h ]

pub add_to_buckets : ℕ → NodeData → Node → List NodeBucket → Outcome (Bool × List NodeBucket)
add_to_buckets now own n bs = do
  b ← find_bucket n.id bs
  assert (in_bounds b n.id)
  (added, b') ← NodeBucket.add dht_k now n b
  if not added && in_bounds b' own
      then split_and_add now n b' (write_back b' bs)
      else returns (added, write_back b' bs)

-- `addNode`; a null pointer is refused.
unfoldable pub add_node : ℕ → Option Node → NodeTree → Outcome (Bool × NodeTree)
add_node now none t = throws invalid_argument
add_node now (some n) t = do
  (added, bs) ← add_to_buckets now t.node n t.buckets
  returns (added, record t { buckets = bs })

-- `removeNode`.
unfoldable pub remove_node : Option Node → NodeTree → Outcome NodeTree
remove_node none t = throws invalid_argument
remove_node (some n) t = do
  b ← find_bucket n.id t.buckets
  assert (in_bounds b n.id)
  returns (record t { buckets = write_back (NodeBucket.remove n.id b).1 t.buckets })

-- `std::accumulate` over the sizes of the buckets.
pub sizes : ℕ → List NodeBucket → ℕ
sizes init [] = init
sizes init (b ∷ bs) = sizes (init + NodeBucket.size b) bs

unfoldable pub size : NodeTree → ℕ
unfolding sizes
size t = sizes 0 t.buckets

unfoldable pub clear : NodeTree → NodeTree
unfolding insert_bucket
clear t = record t { buckets = insert_bucket (empty_bucket min_value max_value) [] }

-- The constructor.
unfoldable pub make_tree : NodeData → NodeTree
unfolding clear
make_tree node = clear (record { buckets = []; node = node })

unfoldable pub get_node : NodeData → NodeTree → Outcome (Option Node)
get_node d t = find_bucket d t.buckets >>= λ b. returns (NodeBucket.find d b)

unfoldable pub get_table_node : NodeTree → NodeData
get_table_node t = t.node

unfoldable pub get_buckets_count : NodeTree → ℕ
get_buckets_count t = length t.buckets
