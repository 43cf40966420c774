-- ===== src/RoutingTable/Handlers.antt =====
-- torrentsync/dht/RoutingTable_MessageHandlers.cpp: the answers to queries, and `doPing`.
use torrent_sync.Common.{Option, none, some, Outcome, returns, aborts}
use torrent_sync.Node.{Endpoint, Node}
use torrent_sync.NodeTree.{get_table_node}
use torrent_sync.NodeTree.Closest.{get_closest_nodes}
use torrent_sync.Message.{Message, get_id, get_transaction_id}
use torrent_sync.Message.Query.{make_ping}
use torrent_sync.Message.Reply.{make_ping_reply, make_find_node_reply}
use torrent_sync.Callback.{mark_good}
use torrent_sync.Yield.{make_yield, drain}
use torrent_sync.RoutingTable.{Host, Handler, done, lift, gets, ◌>>=◌, ◌>>◌}
use torrent_sync.RoutingTable.Transactions.{new_transaction}
use torrent_sync.RoutingTable.Sending.{send_message}
use torrent_sync.RoutingTable.Waiting.{register_callback}

-- `assert(!!(node.getEndpoint()))`, and then `*(node.getEndpoint())`.
unfoldable pub endpoint_of : Option Endpoint → Outcome Endpoint
endpoint_of none = aborts
endpoint_of (some endpoint) = returns endpoint

unfoldable pub handle_ping_query : Host → Message → Node → Handler (Unit {0})
unfolding endpoint_of get_transaction_id make_ping_reply send_message get_table_node
handle_ping_query h m n = do
  endpoint ← lift (endpoint_of n.endpoint)
  transaction_id ← lift (get_transaction_id m)
  own ← gets (λ s. get_table_node s.table)
  reply ← lift (make_ping_reply h.boost transaction_id own)
  send_message reply endpoint

-- The replies without a callback are logged, with the identifier that they hold.
unfoldable pub handle_ping_reply : Message → Handler (Unit {0})
unfolding get_id
handle_ping_reply m = lift (get_id m) >>= λ _. done tt

-- The nodes closest to the sender of the query.
unfoldable pub handle_find_node_query : Host → Message → Node → Handler (Unit {0})
unfolding endpoint_of get_id get_transaction_id get_closest_nodes make_find_node_reply drain
    send_message get_table_node
handle_find_node_query h m n = do
  _ ← lift (get_id m)
  endpoint ← lift (endpoint_of n.endpoint)
  closest ← (λ s. (get_closest_nodes n.id s.table, s))
  transaction_id ← lift (get_transaction_id m)
  own ← gets (λ s. get_table_node s.table)
  reply ←
      lift (make_find_node_reply h.boost h.endian transaction_id own (drain (make_yield closest)))
  send_message reply endpoint

unfoldable pub handle_find_node_reply : Message → Handler (Unit {0})
unfolding get_id
handle_find_node_reply m = lift (get_id m) >>= λ _. done tt

unfoldable pub do_ping : Host → Node → Handler (Unit {0})
unfolding endpoint_of new_transaction make_ping register_callback send_message get_table_node
do_ping h destination = do
  endpoint ← lift (endpoint_of destination.endpoint)
  transaction ← new_transaction
  own ← gets (λ s. get_table_node s.table)
  ping ← lift (make_ping h.boost transaction own)
  register_callback h mark_good transaction (some destination.id)
  send_message ping endpoint
