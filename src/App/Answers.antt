-- ===== src/App/Answers.antt =====
-- What the running application does with the queries of other nodes.
use torrent_sync.Common.{◌≡◌, false, length, none, returns, aborts, arith}
use torrent_sync.NodeData.{NodeData, IsNodeData}
use torrent_sync.NodeData.Codec.{Buffer}
use torrent_sync.Node.{Endpoint}
use torrent_sync.Bencode.Boost.{IsBoost}
use torrent_sync.Message.{Message, get_id}
use torrent_sync.Message.Query.{make_find_node}
use torrent_sync.Message.Query.RoundTrip.{IsSent}
use torrent_sync.RoutingTable.{Host}
use torrent_sync.RoutingTable.Waiting.{get_callback}
use torrent_sync.RoutingTable.Events.{received, handle_event}
use torrent_sync.RoutingTable.Soundness.Parts.{get_callback-eq-none}
use torrent_sync.RoutingTable.Answers.{on_receive-make_find_node}
use torrent_sync.App.{App, IsReachable}
use torrent_sync.App.Safety.{reachable-IsSteady}

-- In every state that the application reaches, with an identifier in range, a find_node query that
-- the program makes for a node with an identifier in range, with a transaction of one to 999 bytes
-- and memory for strings of fewer than 1000 bytes, fails an assertion: the program ends without an
-- answer.
pub find_node_aborts :
    (h : Host) (own source target : NodeData) (sender : Endpoint) (tid query : Buffer) (a : App)
    → IsReachable own a
    → IsBoost h.boost
    → IsSent h.reserve tid
    → IsNodeData own
    → IsNodeData source
    → make_find_node h.boost tid source target ≡ returns query
    → (handle_event h (received false query sender) a.table).0 ≡ aborts
unfolding handle_event
find_node_aborts h own source target sender tid query a r b sent ho hs made =
    on_receive-make_find_node h own source target sender tid query a.table b sent ho hs
      (reachable-IsSteady own a r) made

-- In every state that the application reaches, no callback is found for a message with an
-- identifier of twenty bytes, whatever its transaction, and nothing changes.
pub no_callback_found :
    (h : Host) (own : NodeData) (a : App) (m : Message) (id : Buffer)
    → IsReachable own a
    → get_id m ≡ returns id
    → length id ≡ 20
    → get_callback h m a.table ≡ (returns none, a.table)
no_callback_found h own a m id r e twenty =
    get_callback-eq-none h m id a.table e (λ two. omega (arith, two, twenty))
      (reachable-IsSteady own a r)
