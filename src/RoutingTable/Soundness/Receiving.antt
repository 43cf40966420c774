-- ===== src/RoutingTable/Soundness/Receiving.antt =====
-- A datagram, whatever its bytes, leaves the table steady.
use torrent_sync.Common.{
  ℕ, ◌≡◌, ◌≢◌, refl, Bool, length, none, some, Option, Outcome, returns, throws, aborts, undefined,
  arith, if◌then◌else◌, invalid_argument, logic_error, runtime_error, length_error,
  malformed_message, system_error,
}
use torrent_sync.NodeData.{NodeData}
use torrent_sync.NodeData.Codec.{Buffer, from_buffer}
use torrent_sync.Node.{Endpoint, Node}
use torrent_sync.NodeTree.{get_node, get_table_node}
use torrent_sync.NodeTree.Closest.{get_closest_nodes}
use torrent_sync.Message.Text.{equals, type_query, messages_ping, messages_find_node}
use torrent_sync.Message.{Message, ping, find_node, plain, get_id, get_type, get_transaction_id}
use torrent_sync.Message.Reply.{make_ping_reply, make_find_node_reply}
use torrent_sync.Callback.{Callback}
use torrent_sync.Yield.{make_yield, drain}
use torrent_sync.RoutingTable.{RoutingTable, Host, Handler, lift, done}
use torrent_sync.RoutingTable.Handlers.{endpoint_of, handle_ping_query, handle_find_node_query}
use torrent_sync.RoutingTable.Receiving.{
  as_ping, as_find_node, query_type, catch_malformed, handle_query, dispatch, treat, process, admit,
  receive_parsed, recv_message, parse,
}
use torrent_sync.Bencode.Encoder.{resize}
use torrent_sync.RoutingTable.Triples.{
  Ended, Leads, Keeps, Leads->>=, Leads-lift, Leads-reads, Leads-if,
}
use torrent_sync.RoutingTable.Soundness.{IsSteady}
use torrent_sync.RoutingTable.Soundness.Keys.{from_buffer-length}
use torrent_sync.RoutingTable.Soundness.Parts.{send_message-Keeps, get_callback-eq-none}

module _ (own : NodeData) (r t : ℕ) where
  abbrev Steady : RoutingTable → Type 0
  Steady = IsSteady own r t

  done-Keeps : Keeps Steady (done tt)
  done-Keeps = record { holds = λ s p. p }

  lift-Keeps : (o : Outcome (Unit {0})) → Keeps Steady (lift o)
  lift-Keeps o = Leads-reads (λ s. o) (λ s p. p)

  handle_ping_query-Keeps :
      (h : Host) (m : Message) (n : Node) → Keeps Steady (handle_ping_query h m n)
  unfolding handle_ping_query
  handle_ping_query-Keeps h m n =
      Leads->>= (Leads-reads (λ s. endpoint_of n.endpoint) (λ s p. p)) (λ endpoint.
        Leads->>= (Leads-reads (λ s. get_transaction_id m) (λ s p. p)) (λ id.
          Leads->>= (Leads-reads (λ s. returns (get_table_node s.table)) (λ s p. p)) (λ node.
            Leads->>= (Leads-reads (λ s. make_ping_reply h.boost id node) (λ s p. p))
              (λ reply. send_message-Keeps reply endpoint))))

  handle_find_node_query-Keeps :
      (h : Host) (m : Message) (n : Node) → Keeps Steady (handle_find_node_query h m n)
  unfolding handle_find_node_query
  handle_find_node_query-Keeps h m n = Leads->>= (Leads-reads (λ s. get_id m) (λ s p. p)) (λ x.
      Leads->>= (Leads-reads (λ s. endpoint_of n.endpoint) (λ s p. p)) (λ endpoint.
        Leads->>= (Leads-reads (λ s. get_closest_nodes n.id s.table) (λ s p. p)) (λ closest.
          Leads->>= (Leads-reads (λ s. get_transaction_id m) (λ s p. p)) (λ id.
            Leads->>= (Leads-reads (λ s. returns (get_table_node s.table)) (λ s p. p)) (λ node.
              Leads->>=
                (Leads-reads
                  (λ s. make_find_node_reply h.boost h.endian id node (drain (make_yield closest)))
                  (λ s p. p))
                (λ reply. send_message-Keeps reply endpoint))))))

  as_ping-Keeps : (h : Host) (m : Message) (n : Node) → Keeps Steady (as_ping h m n)
  unfolding as_ping
  as_ping-Keeps h (ping data_map) n = handle_ping_query-Keeps h (ping data_map) n
  as_ping-Keeps h (find_node data_map) n = lift-Keeps undefined
  as_ping-Keeps h (plain data_map) n = lift-Keeps undefined

  as_find_node-Keeps : (h : Host) (m : Message) (n : Node) → Keeps Steady (as_find_node h m n)
  unfolding as_find_node
  as_find_node-Keeps h (ping data_map) n = lift-Keeps undefined
  as_find_node-Keeps h (find_node data_map) n =
      handle_find_node_query-Keeps h (find_node data_map) n
  as_find_node-Keeps h (plain data_map) n = lift-Keeps undefined

  catch_malformed-Keeps :
      (m : Handler (Unit {0})) → Keeps Steady m → Keeps Steady (λ s. catch_malformed (m s))
  unfolding catch_malformed
  catch_malformed-Keeps m k = record { holds = λ s p. at (m s) (k.holds s p) }
    where
      at :
          (x : Outcome (Unit {0}) × RoutingTable)
          → Ended (λ a. Steady) Steady x
          → Ended (λ a. Steady) Steady (catch_malformed x)
      at (returns u, s) p = p
      at (throws invalid_argument, s) p = p
      at (throws logic_error, s) p = p
      at (throws runtime_error, s) p = p
      at (throws length_error, s) p = p
      at (throws malformed_message, s) p = p
      at (throws system_error, s) p = p
      at (aborts, s) p = tt
      at (undefined, s) p = tt

  handle_query-Keeps : (h : Host) (m : Message) (n : Node) → Keeps Steady (handle_query h m n)
  unfolding handle_query
  handle_query-Keeps h m n = Leads->>= (Leads-reads (λ s. query_type m) (λ s p. p)) (λ name.
      catch_malformed-Keeps (named name) (
        Leads-if (equals name messages_ping) (as_ping h m n) (other name) (as_ping-Keeps h m n) (
          Leads-if (equals name messages_find_node) (as_find_node h m n) (done tt)
            (as_find_node-Keeps h m n) done-Keeps)))
    where
      other : Buffer → Handler (Unit {0})
      other name = if equals name messages_find_node then as_find_node h m n else done tt

      named : Buffer → Handler (Unit {0})
      named name = if equals name messages_ping then as_ping h m n else other name

  treat-Keeps :
      (h : Host) (type : Buffer) (m : Message) (id : Buffer) (n : Option Node)
      → get_id m ≡ returns id
      → length id ≢ 2
      → Keeps Steady (treat h type m n)
  unfolding treat dispatch
  treat-Keeps h type m id none known other = done-Keeps
  treat-Keeps h type m id (some n) known other =
      Leads->>= {Q = λ c s. (c ≡ none) × Steady s}
        (record { holds = λ s p. rw (get_callback-eq-none h m id s known other p) (refl, p) })
        dispatched
    where
      dispatched :
          (c : Option Callback)
          → Leads (λ s. (c ≡ none) × Steady s) (dispatch h type m n c) (λ u. Steady) Steady
      dispatched (some c) = record { holds = λ s p. cc }
      dispatched none = record {
        holds = λ s p.
            (Leads-if (equals type type_query) (handle_query h m n) (done tt)
                (handle_query-Keeps h m n) done-Keeps).holds
              s p.1;
      }

  process-Keeps : (h : Host) (sender : Endpoint) (m : Message) → Keeps Steady (process h sender m)
  unfolding process
  process-Keeps h sender m = Leads->>= (Leads-reads (λ s. get_type m) (λ s p. p)) (λ type.
      Leads->>= (Leads-lift (get_id m) (λ s p. p)) (λ id.
        Leads->>= (Leads-lift (from_buffer h.endian id) (λ s p. p.1)) (λ key.
          Leads->>= (Leads-reads (λ s. get_node key s.table) (λ s p. p.1.1)) (λ known.
            Leads->>= (Leads-reads (λ s. admit h sender id known) (λ s p. p.1.1)) (λ n. record {
              holds = λ s p.
                  (treat-Keeps h type m id n p.1.0
                      (λ two. long (from_buffer-length h.endian id p.0) two)).holds
                    s p.1.1;
            })))))
    where
      long : {k : ℕ} → k ≡ 20 → k ≢ 2
      long e two = omega arith

  receive_parsed-Keeps :
      (h : Host) (sender : Endpoint) (o : Outcome (Option Message))
      → Keeps Steady (receive_parsed h sender o)
  unfolding receive_parsed
  receive_parsed-Keeps h sender (returns none) = lift-Keeps undefined
  receive_parsed-Keeps h sender (returns (some m)) = process-Keeps h sender m
  receive_parsed-Keeps h sender (throws malformed_message) = done-Keeps
  receive_parsed-Keeps h sender (throws invalid_argument) = lift-Keeps (throws invalid_argument)
  receive_parsed-Keeps h sender (throws logic_error) = lift-Keeps (throws logic_error)
  receive_parsed-Keeps h sender (throws runtime_error) = lift-Keeps (throws runtime_error)
  receive_parsed-Keeps h sender (throws length_error) = lift-Keeps (throws length_error)
  receive_parsed-Keeps h sender (throws system_error) = lift-Keeps (throws system_error)
  receive_parsed-Keeps h sender aborts = lift-Keeps aborts
  receive_parsed-Keeps h sender undefined = lift-Keeps undefined

  pub recv_message-Keeps :
      (h : Host) (error : Bool) (buffer : Buffer) (count : ℕ) (sender : Endpoint)
      → Keeps Steady (recv_message h error buffer count sender)
  unfolding recv_message
  recv_message-Keeps h error buffer count sender =
      Leads-if error (done tt) (receive_parsed h sender parsed) done-Keeps
        (receive_parsed-Keeps h sender parsed)
    where
      parsed : Outcome (Option Message)
      parsed = parse h.boost h.reserve (resize count buffer)
