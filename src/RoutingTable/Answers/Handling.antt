-- ===== src/RoutingTable/Answers/Handling.antt =====
-- How the query of a node that the table does not know comes to its handler, and what that does.
use torrent_sync.Common.{
  ap, sym, subst, ◌∙◌, ℕ, ◌≡◌, ◌≢◌, refl, ◌+◌, ◌-◌, ◌≤◌, ◌%◌, ◌^◌, true, false, ltb, [], length,
  none, some, returns, aborts, arith,
}
use torrent_sync.NodeData.{NodeData, IsNodeData}
use torrent_sync.NodeData.Codec.{Buffer, write}
use torrent_sync.Node.{Endpoint, Node, make_node}
use torrent_sync.NodeTree.{NodeTree, make_tree, clear, get_node, get_table_node}
use torrent_sync.NodeTree.Closest.{get_closest_nodes}
use torrent_sync.Bencode.Boost.{IsBoost}
use torrent_sync.Bencode.Decoder.{DataMap}
use torrent_sync.Message.Text.{equals, type_query, messages_ping, messages_find_node}
use torrent_sync.Message.{
  Message, ping, find_node, parse_message, get_type, get_id, get_transaction_id, get_message_type,
}
use torrent_sync.Message.Query.RoundTrip.{write-length}
use torrent_sync.Message.Reply.{make_ping_reply}
use torrent_sync.Message.Reply.Empty.{make_find_node_reply-aborts}
use torrent_sync.Yield.{make_yield, drain}
use torrent_sync.RoutingTable.{RoutingTable, Host}
use torrent_sync.RoutingTable.Sending.{
  max_send_queue, send_message, count_up, count_down, start_send,
}
use torrent_sync.RoutingTable.Handlers.{handle_ping_query, handle_find_node_query, endpoint_of}
use torrent_sync.RoutingTable.Receiving.{
  message_buffer_size, admit, process, treat, dispatch, handle_query, query_type, catch_malformed,
  as_ping, as_find_node, receive_parsed, recv_message, on_receive, schedule_next_receive,
}
use torrent_sync.RoutingTable.Soundness.{IsSteady}
use torrent_sync.RoutingTable.Soundness.Parts.{get_callback-eq-none}
use torrent_sync.RoutingTable.Answers.Arrivals.{
  resize-filled, parse-eq, from_buffer-write, get_node-empty, get_closest_nodes-empty,
}

-- The node that stands for an unknown sender.
abbrev pub new_node : Host → NodeData → Endpoint → Node
new_node h source sender = record {
  id = source;
  last_time_good = h.now;
  last_unanswered_queries = 0;
  endpoint = some sender;
}

module _ (h : Host) (own source : NodeData) (ho : IsNodeData own) (hs : IsNodeData source)
    (sender : Endpoint) {r t : ℕ} (s : RoutingTable) (p : IsSteady own r t s)
    (b : IsBoost h.boost) where
  admit-new : admit h sender (write source) none ≡ returns (some (new_node h source sender))
  unfolding admit make_node
  admit-new = rw (from_buffer-write h.endian source hs) refl

  unknown : get_node source s.table ≡ returns none
  unknown =
      subst (λ tree. get_node source tree ≡ returns none) (sym p.tree)
        (get_node-empty own source ho hs)

  -- A query of an unknown sender goes to its handler, since no callback waits for it.
  pub process-handle_query :
      (m : Message)
      → get_type m ≡ returns type_query
      → get_id m ≡ returns (write source)
      → process h sender m s ≡ handle_query h m (new_node h source sender) s
  unfolding process treat dispatch equals
  process-handle_query m e i =
      rw
        (
          i,
          e,
          from_buffer-write h.endian source hs,
          unknown,
          admit-new,
          get_callback-eq-none h m (write source) s i long p,
        )
        refl
    where
      long : length (write source) ≢ 2
      long two = omega (arith, write-length source, two)

  -- A datagram that fits the buffer and is parsed as a message goes there.
  pub on_receive-process :
      (bytes : Buffer) (m : Message)
      → length bytes ≤ message_buffer_size
      → parse_message h.boost h.reserve bytes ≡ some (returns (some m))
      → on_receive h false bytes sender s
        ≡ process h sender m (record s { receives = s.receives - 1 + 1 })
  unfolding on_receive schedule_next_receive recv_message receive_parsed
  on_receive-process bytes m short e = rw (resize-filled bytes short, parse-eq h bytes e) refl

  pub handle_ping-eq :
      (data_map : DataMap) (tid reply : Buffer) (s' : RoutingTable)
      → get_transaction_id (ping data_map) ≡ returns tid
      → get_message_type (ping data_map) ≡ returns messages_ping
      → make_ping_reply h.boost tid s'.table.node ≡ returns reply
      → ltb s'.send_queue_counter 100 ≡ true
      → handle_query h (ping data_map) (new_node h source sender) s'
        ≡ (returns tt, start_send reply sender (count_up s'))
  unfolding handle_query query_type as_ping handle_ping_query endpoint_of get_table_node
      send_message catch_malformed
  handle_ping-eq data_map tid reply s' i name made room = rw (name, i, made, room) refl

  -- With the send queue full the reply is dropped.
  pub handle_ping-full :
      (data_map : DataMap) (tid reply : Buffer) (s' : RoutingTable)
      → get_transaction_id (ping data_map) ≡ returns tid
      → get_message_type (ping data_map) ≡ returns messages_ping
      → make_ping_reply h.boost tid s'.table.node ≡ returns reply
      → ltb s'.send_queue_counter 100 ≡ false
      → handle_query h (ping data_map) (new_node h source sender) s'
        ≡ (returns tt, count_down (count_up s'))
  unfolding handle_query query_type as_ping handle_ping_query endpoint_of get_table_node
      send_message catch_malformed
  handle_ping-full data_map tid reply s' i name made full = rw (name, i, made, full) refl

  pub handle_find_node-eq :
      (data_map : DataMap) (tid : Buffer)
      → get_transaction_id (find_node data_map) ≡ returns tid
      → get_id (find_node data_map) ≡ returns (write source)
      → get_message_type (find_node data_map) ≡ returns messages_find_node
      → (handle_query h (find_node data_map) (new_node h source sender) s).0 ≡ aborts
  unfolding handle_query query_type as_find_node handle_find_node_query endpoint_of get_table_node
      send_message catch_malformed make_yield drain
  handle_find_node-eq data_map tid i id name =
      rw (id, name, closest, i, make_find_node_reply-aborts h.boost b h.endian tid s.table.node)
        refl
    where
      closest : get_closest_nodes source s.table ≡ returns []
      closest =
          subst (λ tree. get_closest_nodes source tree ≡ returns []) (sym p.tree)
            (get_closest_nodes-empty own source ho hs)

module _ {own : NodeData} {t : ℕ} (s : RoutingTable) (p : IsSteady own 1 t s) where
  pub received_one : record s { receives = s.receives - 1 + 1 } ≡ s
  received_one = λ i. record s { receives = back i }
    where
      back : s.receives - 1 + 1 ≡ s.receives
      back = omega (arith, p.listening)

  pub table_node : s.table.node ≡ own
  table_node = ap (λ (tree : NodeTree). tree.node) p.tree ∙ (unfold make_tree clear in refl)

  -- The counter of the send queue is the number of the packets under way.
  pub queue : ltb s.send_queue_counter max_send_queue ≡ ltb (length s.sending) max_send_queue
  queue = ap (λ n. ltb n max_send_queue) p.counted

  pub same_count : count_down (count_up s) ≡ s
  unfolding count_up count_down
  same_count = λ i. record s { send_queue_counter = back i }
    where
      back : ((s.send_queue_counter + 1) % 2 ^ 64 + (2 ^ 64 - 1)) % 2 ^ 64 ≡ s.send_queue_counter
      back = omega (arith, p.counted, p.bounded)
