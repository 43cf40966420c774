-- ===== src/RoutingTable/Answers.antt =====
-- What the table answers to the queries of nodes that it does not know.
pub mod Arrivals
pub mod Sizes
pub mod Errors
pub mod Handling
use torrent_sync.Common.{
  ap, sym, subst, ◌∙◌, ℕ, zero, suc, ◌≡◌, ◌≢◌, refl, ◌+◌, ◌-◌, ◌≤◌, ◌<◌, ◌%◌, ◌^◌, ◌==◌, Bool, true,
  false, ltb, List, [], ◌∷◌, ◌++◌, length, none, some, Option, Outcome, returns, throws, aborts,
  returns_injective, arith, Bool-cases, inl, inr, if◌then◌else◌, min, assert,
}
use torrent_sync.NodeData.{NodeData, IsNodeData}
use torrent_sync.NodeData.Codec.{Buffer, from_buffer, write}
use torrent_sync.Node.{Endpoint, Node, make_node}
use torrent_sync.NodeTree.{NodeTree, make_tree, clear, get_node, get_table_node}
use torrent_sync.NodeTree.Closest.{get_closest_nodes}
use torrent_sync.Bencode.Boost.{IsBoost}
use torrent_sync.Bencode.Decoder.{DataMap}
use torrent_sync.Bencode.Encoder.{resize}
use torrent_sync.Message.Text.{equals, type_query, messages_ping, messages_find_node}
use torrent_sync.Message.{
  Message, ping, find_node, plain, parse_message, get_type, get_id, get_transaction_id,
  get_message_type,
}
use torrent_sync.Message.Query.{make_ping, make_find_node}
use torrent_sync.Message.Query.RoundTrip.{
  IsSent, write-length, parse_message-make_ping, parse_message-make_find_node,
}
use torrent_sync.Message.Reply.{make_ping_reply, make_find_node_reply, check_ping}
use torrent_sync.Message.Reply.RoundTrip.{parse_message-make_ping_reply}
use torrent_sync.Message.Reply.Empty.{make_find_node_reply-aborts}
use torrent_sync.Yield.{make_yield, drain}
use torrent_sync.RoutingTable.{RoutingTable, Host}
use torrent_sync.RoutingTable.Sending.{
  max_send_queue, send_message, count_up, count_down, start_send,
}
use torrent_sync.RoutingTable.Handlers.{handle_ping_query, handle_find_node_query, endpoint_of}
use torrent_sync.RoutingTable.Receiving.{
  filled, message_buffer_size, parse, admit, process, treat, dispatch, handle_query, query_type,
  catch_malformed, as_ping, as_find_node, receive_parsed, recv_message, on_receive,
  schedule_next_receive,
}
use torrent_sync.RoutingTable.Soundness.{IsSteady}
use torrent_sync.RoutingTable.Soundness.Parts.{get_callback-eq-none}
use torrent_sync.RoutingTable.Answers.Sizes.{length-make_ping, length-make_find_node}
use torrent_sync.RoutingTable.Answers.Arrivals.{
  resize-filled, parse-eq, from_buffer-write, get_node-empty, get_closest_nodes-empty,
}
use torrent_sync.RoutingTable.Answers.Handling.{
  new_node, process-handle_query, on_receive-process, handle_ping-eq, handle_ping-full,
  handle_find_node-eq, received_one, table_node, queue, same_count,
}

-- The table after an answer: one packet more is on its way, unless there are too many already.
abbrev pub answered : Buffer → Endpoint → RoutingTable → RoutingTable
answered reply sender s =
    if ltb (length s.sending) max_send_queue then start_send reply sender (count_up s) else s

-- A ping query of a node that the table does not know is answered at once: a packet is on its way
-- to the sender of the query, unless the send queue is full, and it is a ping reply with the
-- table's own identifier and the transaction of the query.
pub on_receive-make_ping :
    (h : Host) (own source : NodeData) (sender : Endpoint) (tid query : Buffer) {t : ℕ}
    (s : RoutingTable)
    → IsBoost h.boost
    → IsSent h.reserve tid
    → IsNodeData own
    → IsNodeData source
    → IsSteady own 1 t s
    → make_ping h.boost tid source ≡ returns query
    → (reply : Buffer) × (data_map : DataMap) × (on_receive h false query sender s
        ≡ (returns tt, answered reply sender s))
      × (parse_message h.boost h.reserve reply ≡ some (returns (some (plain data_map))))
      × (check_ping (plain data_map) ≡ returns (plain data_map))
      × (get_id (plain data_map) ≡ returns (write own))
      × (get_transaction_id (plain data_map) ≡ returns tid)
on_receive-make_ping h own source sender tid query s b sent ho hs p made =
    let (bytes, data_map, e, parsed, i, tid_of, name, type) =
      parse_message-make_ping h.boost b h.reserve tid sent source in
    let (reply, answer, made_reply, reply_parsed, checked, own_id, same_tid) =
      parse_message-make_ping_reply h.boost b h.reserve tid sent own in
    let same : bytes ≡ query = returns_injective (sym e ∙ made) in
    (
      reply,
      answer,
      on_receive-process h own source ho hs sender s p b query (ping data_map)
            (length-make_ping h.boost b tid sent.short source query made)
            (subst (λ q. parse_message h.boost h.reserve q ≡ some (returns (some (ping data_map))))
              same parsed)
          ∙ ap (process h sender (ping data_map)) (received_one s p)
          ∙ process-handle_query h own source ho hs sender s p b (ping data_map) type i
          ∙ reply_or_drop data_map reply tid_of name (
              subst (λ d. make_ping_reply h.boost tid d ≡ returns reply) (sym (table_node s p))
                made_reply),
      reply_parsed,
      checked,
      own_id,
      same_tid,
    )
  where
    reply_or_drop :
        (data_map : DataMap) (reply : Buffer)
        → get_transaction_id (ping data_map) ≡ returns tid
        → get_message_type (ping data_map) ≡ returns messages_ping
        → make_ping_reply h.boost tid s.table.node ≡ returns reply
        → handle_query h (ping data_map) (new_node h source sender) s
          ≡ (returns tt, answered reply sender s)
    reply_or_drop data_map reply tid_of name made_reply =
        elim (Bool-cases (ltb (length s.sending) max_send_queue)) [
          | inl room ↦ rw room (
              handle_ping-eq h own source ho hs sender s p b data_map tid reply s tid_of name
                made_reply (queue s p ∙ room))
          | inr full ↦ rw full (
              handle_ping-full h own source ho hs sender s p b data_map tid reply s tid_of name
                made_reply (queue s p ∙ full)
              ∙ ap (λ u. (returns tt, u)) (same_count s p))
        ]

-- A find_node query of such a node always fails an assertion, which ends the program.
pub on_receive-make_find_node :
    (h : Host) (own source target : NodeData) (sender : Endpoint) (tid query : Buffer) {t : ℕ}
    (s : RoutingTable)
    → IsBoost h.boost
    → IsSent h.reserve tid
    → IsNodeData own
    → IsNodeData source
    → IsSteady own 1 t s
    → make_find_node h.boost tid source target ≡ returns query
    → (on_receive h false query sender s).0 ≡ aborts
on_receive-make_find_node h own source target sender tid query s b sent ho hs p made =
    let (bytes, data_map, e, parsed, target_of, i, tid_of, name, type) =
      parse_message-make_find_node h.boost b h.reserve tid sent source target in
    let same : bytes ≡ query = returns_injective (sym e ∙ made) in
    ap (λ r. r.0)
      (on_receive-process h own source ho hs sender s p b query (find_node data_map)
          (length-make_find_node h.boost b tid sent.short source target query made)
          (subst
            (λ q. parse_message h.boost h.reserve q ≡ some (returns (some (find_node data_map))))
            same parsed)
        ∙ ap (process h sender (find_node data_map)) (received_one s p)
        ∙ process-handle_query h own source ho hs sender s p b (find_node data_map) type i)
    ∙ handle_find_node-eq h own source ho hs sender s p b data_map tid tid_of i name
