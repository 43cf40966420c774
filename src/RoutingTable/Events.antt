-- ===== src/RoutingTable/Events.antt =====
-- The handlers that the I/O service calls for the routing table, and when it may call them.
use torrent_sync.Common.{ℕ, ◌<◌, Bool, length}
use torrent_sync.NodeData.Codec.{Buffer}
use torrent_sync.Node.{Endpoint}
use torrent_sync.RoutingTable.{RoutingTable, Host, Handler}
use torrent_sync.RoutingTable.Sending.{finish_send}
use torrent_sync.RoutingTable.Receiving.{on_receive}
use torrent_sync.RoutingTable.Starting.{on_timer}

-- The end of an asynchronous operation: a receive, with the datagram and its sender, the sending
-- of the packet at a position, or a timer. The truth values say whether it failed.
pub data Event : Type 0 where
  received : Bool → Buffer → Endpoint → Event
  sent : ℕ → Event
  expired : Bool → Event

abbrev pub IsPending : Event → RoutingTable → Type 0
IsPending (received error datagram sender) s = 0 < s.receives
IsPending (sent i) s = i < length s.sending
IsPending (expired error) s = 0 < s.timers

unfoldable pub handle_event : Host → Event → Handler (Unit {0})
unfolding on_receive finish_send on_timer
handle_event h (received error datagram sender) = on_receive h error datagram sender
handle_event h (sent i) = finish_send i
handle_event h (expired error) = on_timer h error
