-- ===== src/Message.antt =====
-- torrentsync/dht/message: the messages of the protocol, on top of their bencoded form.
pub mod Tests
pub mod Text
pub mod Shape
pub mod Query
pub mod Reply
use torrent_sync.Common.{
  ℕ, Bool, true, false, ◌&&◌, ◌||◌, not, ◌==◌, if◌then◌else◌, Option, none, some, List, [], ◌∷◌,
  ◌++◌, Outcome, returns, throws, aborts, undefined, runtime_error, malformed_message, assert,
  ◌>>=◌, ◌>>◌,
}
use torrent_sync.NodeData.Codec.{Buffer}
use torrent_sync.Bencode.Boost.{Boost}
use torrent_sync.Bencode.Decoder.{DataMap, find_in}
use torrent_sync.Bencode.Decoder.Parse.{Reserve, decode}
use torrent_sync.Message.Text.{
  equals, type_query, type_reply, type_error, field_type, field_query, field_peer_id,
  field_transaction_id, field_arguments, field_reply, field_target, messages_ping,
  messages_find_node, under,
}

-- A message by its class: a query of its kind, or a plain `Message`, as all replies are.
pub data Message : Type 0 where
  ping : DataMap → Message
  find_node : DataMap → Message
  plain : DataMap → Message

abbrev pub data_of : Message → DataMap
data_of (ping data_map) = data_map
data_of (find_node data_map) = data_map
data_of (plain data_map) = data_map

-- `find( key )`, with an exception for a field that is missing.
unfoldable pub required : Option Buffer → Outcome Buffer
required none = throws malformed_message
required (some bytes) = returns bytes

-- The constructor `query::Ping`.
unfoldable pub make_ping : DataMap → Outcome (Option Message)
unfolding required
make_ping data_map = required (find_in (under field_arguments field_peer_id) data_map) >>= λ _.
    returns (some (ping data_map))

-- The constructor `query::FindNode`.
unfoldable pub make_find_node : DataMap → Outcome (Option Message)
unfolding required
make_find_node data_map = required (find_in (under field_arguments field_target) data_map) >>= λ _.
    returns (some (find_node data_map))

unfoldable pub query_of : Buffer → DataMap → Outcome (Option Message)
unfolding make_ping make_find_node equals
query_of name data_map =
    if equals name messages_ping
    then make_ping data_map
    else if equals name messages_find_node
    then make_find_node data_map
    else throws malformed_message

-- The message of a type; an error is a null pointer, and another type fails an assertion.
unfoldable pub message_of : Buffer → DataMap → Outcome (Option Message)
unfolding required query_of
message_of type data_map =
    if equals type type_query
    then (required (find_in field_query data_map) >>= λ name. query_of name data_map)
    else if equals type type_reply
    then returns (some (plain data_map))
    else (assert (equals type type_error) >>= λ _. returns none)

-- The `catch` turns what the decoder throws itself into a `MalformedMessageException`.
unfoldable pub catch_bencode : {A : Type 0} → Outcome A → Outcome A
catch_bencode (returns a) = returns a
catch_bencode (throws runtime_error) = throws malformed_message
catch_bencode (throws other) = throws other
catch_bencode aborts = aborts
catch_bencode undefined = undefined

unfoldable pub parsed : Outcome DataMap → Outcome (Option Message)
unfolding catch_bencode required message_of
parsed decoded = do
  data_map ← catch_bencode decoded
  type ← required (find_in field_type data_map)
  message_of type data_map

-- The message of what was decoded; `none` is a decoder without fuel left.
unfoldable pub message_from : Option (Outcome DataMap) → Option (Outcome (Option Message))
unfolding parsed
message_from none = none
message_from (some decoded) = some (parsed decoded)

-- `Message::parseMessage` on a buffer.
unfoldable pub parse_message : Boost → Reserve → Buffer → Option (Outcome (Option Message))
unfolding message_from
parse_message boost reserve bytes = message_from (decode boost reserve bytes)

unfoldable pub get_type : Message → Outcome Buffer
unfolding required
get_type m = required (find_in field_type (data_of m))

unfoldable pub get_transaction_id : Message → Outcome Buffer
unfolding required
get_transaction_id m = required (find_in field_transaction_id (data_of m))

unfoldable pub get_id : Message → Outcome Buffer
unfolding get_type
get_id m = do
  type ← get_type m
  required (
      find_in
        (under (if equals type type_reply then field_reply else field_arguments) field_peer_id)
        (data_of m))

-- `Query::getMessageType`.
unfoldable pub get_message_type : Message → Outcome Buffer
unfolding required
get_message_type m = required (find_in type_query (data_of m))
