-- ===== src/RoutingTable/Answers/Errors.antt =====
-- An error message of another node: `parseMessage` returns a null pointer for it, which
-- `recvMessage` dereferences.
use torrent_sync.Common.{◌≡◌, refl, ◌≤◌, false, length, some, none, returns, undefined}
use torrent_sync.NodeData.Codec.{Buffer}
use torrent_sync.Node.{Endpoint}
use torrent_sync.Bencode.Decoder.{DataMap, find_in, same_string}
use torrent_sync.Bencode.Decoder.Parse.{decode}
use torrent_sync.Message.Text.{equals, type_error, field_type}
use torrent_sync.Message.{parse_message, message_from, parsed, catch_bencode, message_of, required}
use torrent_sync.RoutingTable.{RoutingTable, Host}
use torrent_sync.RoutingTable.Receiving.{
  message_buffer_size, on_receive, recv_message, receive_parsed, schedule_next_receive,
}
use torrent_sync.RoutingTable.Answers.Arrivals.{resize-filled, parse-eq}

-- An error message whose decoded form is known is parsed as a null pointer.
error_parsed :
    (h : Host) (bytes : Buffer) (data_map : DataMap)
    → decode h.boost h.reserve bytes ≡ some (returns data_map)
    → find_in field_type data_map ≡ some type_error
    → parse_message h.boost h.reserve bytes ≡ some (returns none)
unfolding parse_message
error_parsed h bytes data_map decoded e = rw decoded (
    unfold message_from parsed catch_bencode message_of required in
    rw e (unfold equals same_string in refl))

-- A datagram that fits the buffer and that the decoder reads as a map with the type of an error
-- message makes the program dereference a null pointer, whatever the state of the table.
pub on_receive-error :
    (h : Host) (bytes : Buffer) (data_map : DataMap) (sender : Endpoint) (s : RoutingTable)
    → length bytes ≤ message_buffer_size
    → decode h.boost h.reserve bytes ≡ some (returns data_map)
    → find_in field_type data_map ≡ some type_error
    → (on_receive h false bytes sender s).0 ≡ undefined
unfolding on_receive schedule_next_receive recv_message receive_parsed
on_receive-error h bytes data_map sender s short decoded e =
    rw (resize-filled bytes short, parse-eq h bytes (error_parsed h bytes data_map decoded e)) refl
