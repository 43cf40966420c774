-- ===== src/RoutingTable/Receiving.antt =====
-- torrentsync/dht/RoutingTable_RecvMessage.cpp: what is done with a datagram.
use torrent_sync.Common.{
  ℕ, Bool, true, false, ◌&&◌, not, ◌==◌, if◌then◌else◌, Option, none, some, List, [], ◌∷◌, ◌++◌,
  take, length, replicate, ◌-◌, ◌+◌, min, Outcome, returns, throws, aborts, undefined,
  malformed_message, ◌≡◌, refl, ap,
}
use torrent_sync.Common
use torrent_sync.NodeData.Codec.{Buffer, from_buffer}
use torrent_sync.Node.{Endpoint, Node, make_node}
use torrent_sync.NodeTree.{get_node}
use torrent_sync.Bencode.Boost.{Boost}
use torrent_sync.Bencode.Encoder.{resize}
use torrent_sync.Bencode.Decoder.Parse.{Reserve}
use torrent_sync.Bencode.Decoder.Termination.{decode_ends}
use torrent_sync.Message.Text.{equals, type_query, messages_ping, messages_find_node}
use torrent_sync.Message.{
  Message, ping, find_node, plain, parse_message, message_from, parsed, get_type, get_id,
  get_message_type,
}
use torrent_sync.Callback.{Callback}
use torrent_sync.RoutingTable.{RoutingTable, Host, Handler, done, lift, modify, ◌>>=◌, ◌>>◌}
use torrent_sync.RoutingTable.Waiting.{get_callback}
use torrent_sync.RoutingTable.Handlers.{handle_ping_query, handle_find_node_query}
use torrent_sync.RoutingTable.Actions.{call}

-- `MESSAGE_BUFFER_SIZE`.
abbrev pub message_buffer_size : ℕ
message_buffer_size = 4096

-- The value of a computation that ends.
abbrev pub value_of : {A : Type 0} (o : Option A) → (a : A) × (o ≡ some a) → A
value_of none p = p.0
value_of (some a) p = a

pub parse_message_ends :
    (boost : Boost) (reserve : Reserve) (bytes : Buffer)
    → (r : Outcome (Option Message)) × (parse_message boost reserve bytes ≡ some r)
unfolding parse_message message_from
parse_message_ends boost reserve bytes =
    let (r, e) = decode_ends boost reserve bytes in (parsed r, ap message_from e)

-- `Message::parseMessage`, which ends on every buffer.
unfoldable pub parse : Boost → Reserve → Buffer → Outcome (Option Message)
unfolding parse_message
parse boost reserve bytes =
    value_of (parse_message boost reserve bytes) (parse_message_ends boost reserve bytes)

unfoldable pub same_endpoint : Endpoint → Endpoint → Bool
same_endpoint a b = (a.address == b.address) && (a.port == b.port)

-- `!!endpoint && *endpoint != sender`.
unfoldable pub has_moved : Endpoint → Option Endpoint → Bool
unfolding same_endpoint
has_moved sender none = false
has_moved sender (some endpoint) = not (same_endpoint endpoint sender)

-- The node of the message: nothing, when it is known under another endpoint, or a new one.
unfoldable pub admit : Host → Endpoint → Buffer → Option Node → Outcome (Option Node)
unfolding has_moved make_node
admit h sender id (some n) = returns (if has_moved sender n.endpoint then none else some n)
admit h sender id none =
    Common.◌>>=◌ (make_node h.endian h.now id (some sender)) (λ n. returns (some n))

-- The exceptions for malformed messages are caught.
unfoldable pub catch_malformed :
    Outcome (Unit {0}) × RoutingTable → Outcome (Unit {0}) × RoutingTable
catch_malformed (throws malformed_message, s) = (returns tt, s)
catch_malformed (o, s) = (o, s)

-- The casts of the message to the class that its handler takes; a null pointer is dereferenced.
unfoldable pub as_ping : Host → Message → Node → Handler (Unit {0})
unfolding handle_ping_query
as_ping h (ping data_map) n = handle_ping_query h (ping data_map) n
as_ping h (find_node data_map) n = lift undefined
as_ping h (plain data_map) n = lift undefined

unfoldable pub as_find_node : Host → Message → Node → Handler (Unit {0})
unfolding handle_find_node_query
as_find_node h (ping data_map) n = lift undefined
as_find_node h (find_node data_map) n = handle_find_node_query h (find_node data_map) n
as_find_node h (plain data_map) n = lift undefined

unfoldable pub query_type : Message → Outcome Buffer
unfolding get_message_type
query_type (ping data_map) = get_message_type (ping data_map)
query_type (find_node data_map) = get_message_type (find_node data_map)
query_type (plain data_map) = undefined

unfoldable pub handle_query : Host → Message → Node → Handler (Unit {0})
unfolding query_type equals catch_malformed as_ping as_find_node
handle_query h m n = do
  name ← lift (query_type m)
  (λ s. catch_malformed (
      (if equals name messages_ping
          then as_ping h m n
          else if equals name messages_find_node
          then as_find_node h m n
          else done tt)
        s))

-- A reply or an error that no callback waits for is dropped, and so is any other type.
unfoldable pub dispatch : Host → Buffer → Message → Node → Option Callback → Handler (Unit {0})
unfolding equals handle_query call
dispatch h type m n (some c) = call h c m n
dispatch h type m n none = if equals type type_query then handle_query h m n else done tt

unfoldable pub treat : Host → Buffer → Message → Option Node → Handler (Unit {0})
unfolding get_callback dispatch
treat h type m none = done tt
treat h type m (some n) = get_callback h m >>= λ c. dispatch h type m n c

unfoldable pub process : Host → Endpoint → Message → Handler (Unit {0})
unfolding get_type get_id from_buffer get_node admit treat
process h sender m = do
  type ← lift (get_type m)
  id ← lift (get_id m)
  key ← lift (from_buffer h.endian id)
  known ← (λ s. (get_node key s.table, s))
  node ← lift (admit h sender id known)
  treat h type m node

-- A null pointer, which stands for an error message, is dereferenced.
unfoldable pub receive_parsed : Host → Endpoint → Outcome (Option Message) → Handler (Unit {0})
unfolding process
receive_parsed h sender (returns none) = lift undefined
receive_parsed h sender (returns (some m)) = process h sender m
receive_parsed h sender (throws malformed_message) = done tt
receive_parsed h sender (throws e) = lift (throws e)
receive_parsed h sender aborts = lift aborts
receive_parsed h sender undefined = lift undefined

unfoldable pub recv_message : Host → Bool → Buffer → ℕ → Endpoint → Handler (Unit {0})
unfolding resize parse receive_parsed
recv_message h error buffer bytes_transferred sender =
    if error
    then done tt
    else receive_parsed h sender (parse h.boost h.reserve (resize bytes_transferred buffer))

-- `async_receive_from`.
unfoldable pub schedule_next_receive : Handler (Unit {0})
schedule_next_receive = modify (λ s. record s { receives = s.receives + 1 })

-- The datagram in the buffer, which is full of zeros before.
unfoldable pub filled : Buffer → Buffer
filled datagram = resize message_buffer_size (take message_buffer_size datagram)

-- The handler that is called with a datagram: the next receive is scheduled first, since the
-- `utils::Finally` is a temporary object that ends with its statement.
unfoldable pub on_receive : Host → Bool → Buffer → Endpoint → Handler (Unit {0})
unfolding recv_message schedule_next_receive filled
on_receive h error datagram sender = do
  modify (λ s. record s { receives = s.receives - 1 })
  schedule_next_receive
  recv_message h error (filled datagram) (min message_buffer_size (length datagram)) sender
