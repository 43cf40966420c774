-- ===== src/RoutingTable/Actions.antt =====
-- The functions of the callbacks in torrentsync/dht/RoutingTable_MessageHandlers.cpp and
-- RoutingTable_InitializeTable.cpp, and what calls them.
use torrent_sync.Common.{
  ℕ, Bool, Option, none, some, List, [], ◌∷◌, if◌then◌else◌, map, Outcome, returns,
}
use torrent_sync.NodeData.{NodeData, eq}
use torrent_sync.Node.{Endpoint, Node, set_good}
use torrent_sync.NodeBucket.{NodeBucket}
use torrent_sync.NodeTree.{NodeTree, add_node}
use torrent_sync.Message.{Message, ping, find_node, plain}
use torrent_sync.Message.Reply.{get_nodes}
use torrent_sync.Callback.{Action, mark_good, collect_nodes, Callback}
use torrent_sync.RoutingTable.{RoutingTable, Host, Handler, done, lift, modify, ◌>>=◌, ◌>>◌}

-- A pointer to a node of the tree is shared, so that a change of it is a change in the tree.
unfoldable pub set_good_first : ℕ → NodeData → List Node → List Node
unfolding set_good eq
set_good_first now id [] = []
set_good_first now id (n ∷ ns) =
    if eq n.id id then set_good now n ∷ ns else n ∷ set_good_first now id ns

unfoldable pub set_good_in : ℕ → NodeData → NodeTree → NodeTree
unfolding set_good_first
set_good_in now id t = record t {
  buckets =
      map (λ (b : NodeBucket). record b { elements = set_good_first now id b.elements }) t.buckets;
}

-- `dynamic_cast` to `reply::FindNode`: no message that is parsed has this class.
unfoldable pub cast_find_node : Message → Option Message
cast_find_node (ping data_map) = none
cast_find_node (find_node data_map) = none
cast_find_node (plain data_map) = none

unfoldable pub push_endpoint : Option Endpoint → RoutingTable → RoutingTable
push_endpoint none s = s
push_endpoint (some endpoint) s = record s { initial_addresses = endpoint ∷ s.initial_addresses }

-- `_table.addNode` on the table's tree.
unfoldable pub added : Outcome (Bool × NodeTree) → RoutingTable → Outcome (Unit {0}) × RoutingTable
added (returns r) s = (returns tt, record s { table = r.1 })
added (Outcome.throws e) s = (Outcome.throws e, s)
added Outcome.aborts s = (Outcome.aborts, s)
added Outcome.undefined s = (Outcome.undefined, s)

unfoldable pub add_to_table : ℕ → Node → Handler (Unit {0})
unfolding added add_node
add_to_table now n s = added (add_node now (some n) s.table) s

-- The loop over the nodes of a reply.
unfoldable pub collect : ℕ → List Node → Handler (Unit {0})
unfolding push_endpoint add_to_table
collect now [] = done tt
collect now (n ∷ ns) = do modify (push_endpoint n.endpoint); add_to_table now n; collect now ns

-- A cast that fails is caught.
unfoldable pub collect_from : Host → Option Message → Handler (Unit {0})
unfolding collect get_nodes
collect_from h none = done tt
collect_from h (some m) = do
  nodes ← lift (get_nodes h.endian h.stack h.now h.garbage m)
  collect h.now nodes

unfoldable pub run_action : Host → Action → Option (Message × Node) → Handler (Unit {0})
unfolding set_good_in cast_find_node collect_from
run_action h action none = done tt
run_action h mark_good (some (m, n)) =
    modify (λ s. record s { table = set_good_in h.now n.id s.table })
run_action h collect_nodes (some (m, n)) = collect_from h (cast_find_node m)

-- `Callback::call` and `Callback::timeout`.
unfoldable pub call : Host → Callback → Message → Node → Handler (Unit {0})
unfolding run_action
call h c m n = run_action h c.action (some (m, n))

unfoldable pub timeout : Host → Callback → Handler (Unit {0})
unfolding run_action
timeout h c = run_action h c.action none
