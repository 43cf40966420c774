-- ===== src/NodeBucket.antt =====
-- torrentsync/dht/NodeBucket.h: a bounded, sorted array of nodes whose identifiers lie between two
-- bounds. The model keeps the elements from `begin()` to `end()`; the slots of the array behind
-- `addressCount` are never read.
pub mod Tests
pub mod Content
pub mod Order
pub mod Adding
pub mod Lookup
pub mod Removing
use torrent_sync.Common.{
  ℕ, zero, suc, Bool, true, false, ◌&&◌, ◌||◌, not, ltb, ◌==◌, if◌then◌else◌, Option, none, some,
  List, [], ◌∷◌, ◌++◌, length, take, drop, Outcome, returns, throws, invalid_argument,
}
use torrent_sync.NodeData.{NodeData, eq, lt, le, gt}
use torrent_sync.Node.{Node, is_bad}

pub record NodeBucket : Type 0 where
  pub low : NodeData
  pub high : NodeData
  pub elements : List Node

-- The constructor.
abbrev pub empty_bucket : NodeData → NodeData → NodeBucket
empty_bucket low high = record { low = low; high = high; elements = [] }

abbrev pub size : NodeBucket → ℕ
size b = length b.elements

unfoldable pub clear : NodeBucket → NodeBucket
clear b = record b { elements = [] }

unfoldable pub in_bounds : NodeBucket → NodeData → Bool
in_bounds b d = le b.low d && le d b.high

-- `std::find_if( begin(), end(), … )`: how many elements stand before the first greater one.
unfoldable pub find_greater : NodeData → List Node → ℕ
find_greater d [] = 0
find_greater d (x ∷ xs) = if lt d x.id then 0 else suc (find_greater d xs)

-- `std::copy_backward` opens a gap at that place, and the node is put there.
unfoldable pub insert : Node → List Node → List Node
unfolding find_greater
insert n xs = let i = find_greater n.id xs in take i xs ++ n ∷ drop i xs

-- `std::remove_if` keeps the others in their order.
unfoldable pub good_ones : ℕ → List Node → List Node
good_ones now [] = []
good_ones now (x ∷ xs) = if is_bad now x then good_ones now xs else x ∷ good_ones now xs

unfoldable pub remove_bad : ℕ → NodeBucket → NodeBucket
unfolding good_ones
remove_bad now b = record b { elements = good_ones now b.elements }

-- The part of `add` behind the bounds check and `removeBad`.
unfoldable pub add_if_room : ℕ → Node → NodeBucket → Bool × NodeBucket
add_if_room max_size n b =
    if ltb (size b) max_size
    then (true, record b { elements = insert n b.elements })
    else (false, b)

unfoldable pub add : ℕ → ℕ → Node → NodeBucket → Outcome (Bool × NodeBucket)
unfolding add_if_room remove_bad
add max_size now n b =
    if gt n.id b.high || lt n.id b.low
    then throws invalid_argument
    else returns (add_if_room max_size n (if size b == max_size then remove_bad now b else b))

abbrev pub put_back : Node → Option (List Node) → Option (List Node)
put_back x none = none
put_back x (some ys) = some (x ∷ ys)

-- The loop of `remove`: the first element with the identifier is dropped, and the rest moves up.
unfoldable pub remove_first : NodeData → List Node → Option (List Node)
remove_first d [] = none
remove_first d (x ∷ xs) = if eq d x.id then some xs else put_back x (remove_first d xs)

unfoldable pub remove : NodeData → NodeBucket → Bool × NodeBucket
unfolding remove_first
remove d b = elim (remove_first d b.elements) [
  | none ↦ (false, b)
  | some xs ↦ (true, record b { elements = xs })
]

unfoldable pub find_node : NodeData → List Node → Option Node
find_node d [] = none
find_node d (x ∷ xs) = if eq x.id d then some x else find_node d xs

unfoldable pub find : NodeData → NodeBucket → Option Node
unfolding find_node
find d b = find_node d b.elements
