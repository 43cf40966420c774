-- ===== src/App/Tests.antt =====
-- The application with one network node as a peer, and its theorems on it.
use torrent_sync.Common.{◌≡◌, refl, true, false, none, [], ◌∷◌, returns, aborts, arith}
use torrent_sync.NodeData.Codec.{Buffer, write}
use torrent_sync.NodeTree.{make_tree}
use torrent_sync.Bencode.Decimal.{decimal, decimal-IsBoost}
use torrent_sync.Message.{ping}
use torrent_sync.Message.Shape.{message_bytes}
use torrent_sync.Message.Text.{field_arguments, field_peer_id, messages_ping, messages_find_node}
use torrent_sync.Message.Query.RoundTrip.{
  find_node_arguments, query_fields, make_find_node-message_bytes,
}
use torrent_sync.RoutingTable.{make_table}
use torrent_sync.RoutingTable.Waiting.{get_callback}
use torrent_sync.RoutingTable.Receiving.{schedule_next_receive}
use torrent_sync.RoutingTable.Starting.{initialize_network, initialize_table}
use torrent_sync.RoutingTable.Events.{received, handle_event}
use torrent_sync.RoutingTable.Soundness.{IsSteady}
use torrent_sync.RoutingTable.Tests.{
  a_host, own_node, a_peer, peer_endpoint, tid, tid-IsSent, a_message, a_message_id,
}
use torrent_sync.App.{App, IsReachable, constructed, make_app, started}
use torrent_sync.App.Safety.{reachable-IsSteady}
use torrent_sync.App.Answers.{find_node_aborts, no_callback_found}

abbrev an_app : App
an_app = record {
  table = record {
    table = make_tree own_node;
    initial_addresses = [];
    callbacks = [];
    close_nodes_count = 0;
    transaction_id = 7;
    send_queue_counter = 0;
    recv_open = true;
    send_open = true;
    sending = [];
    receives = 1;
    timers = 1;
  };
  signals = 1;
  stopped = false;
}

an_app-IsReachable : IsReachable own_node an_app
unfolding make_app started initialize_network make_table schedule_next_receive initialize_table
an_app-IsReachable = constructed a_host 7 an_app refl

abbrev ping_query : Buffer
ping_query =
    message_bytes decimal field_arguments ((field_peer_id, write a_peer) ∷ [])
      (query_fields messages_ping tid)

abbrev find_node_query : Buffer
find_node_query =
    message_bytes decimal field_arguments (find_node_arguments a_peer own_node)
      (query_fields messages_find_node tid)

reachable-IsSteady_example : IsSteady own_node 1 1 an_app.table
reachable-IsSteady_example = reachable-IsSteady own_node an_app an_app-IsReachable

find_node_aborts_example :
    (handle_event a_host (received false find_node_query peer_endpoint) an_app.table).0 ≡ aborts
find_node_aborts_example =
    find_node_aborts a_host own_node a_peer own_node peer_endpoint tid find_node_query an_app
      an_app-IsReachable decimal-IsBoost tid-IsSent (omega arith) (omega arith)
      (make_find_node-message_bytes decimal decimal-IsBoost tid tid-IsSent.short a_peer own_node)

no_callback_found_example :
    get_callback a_host (ping a_message) an_app.table ≡ (returns none, an_app.table)
no_callback_found_example =
    no_callback_found a_host own_node an_app (ping a_message) (write a_peer) an_app-IsReachable
      a_message_id (unfold write in refl)
