-- ===== src/Message/Query.antt =====
-- torrentsync/dht/message/query: making a ping and a find_node query.
pub mod RoundTrip
use torrent_sync.Common.{
  ℕ, Bool, true, false, not, Option, none, some, List, [], ◌∷◌, ◌++◌, Outcome, returns, throws,
  aborts, assert, ◌>>=◌, ◌>>◌,
}
use torrent_sync.NodeData.{NodeData}
use torrent_sync.NodeData.Codec.{Buffer, write}
use torrent_sync.Bencode.Boost.{Boost}
use torrent_sync.Bencode.Encoder.{
  Encoder, make_encoder, start_dictionary, end_dictionary, add_element, add_dictionary_element,
}
use torrent_sync.Bencode.Encoder
use torrent_sync.Bencode.Decoder.{find_in}
use torrent_sync.Message.Text.{
  type_query, field_type, field_query, field_peer_id, field_transaction_id, field_arguments,
  field_target, messages_ping, messages_find_node, under,
}
use torrent_sync.Message.{Message, data_of}

-- The calls of the encoder, in their order.
unfoldable pub ping_message : Boost → Buffer → NodeData → Encoder → Outcome Encoder
ping_message boost transaction_id source enc = start_dictionary enc >>= λ e1.
    add_element boost field_arguments e1 >>= λ e2. start_dictionary e2 >>= λ e3.
    add_dictionary_element boost field_peer_id (write source) e3 >>= λ e4.
    end_dictionary e4 >>= λ e5. add_dictionary_element boost field_query messages_ping e5 >>= λ e6.
    add_dictionary_element boost field_transaction_id transaction_id e6 >>= λ e7.
    add_dictionary_element boost field_type type_query e7 >>= λ e8. end_dictionary e8

-- `query::Ping::make`.
unfoldable pub make_ping : Boost → Buffer → NodeData → Outcome Buffer
unfolding ping_message
make_ping boost transaction_id source =
    ping_message boost transaction_id source make_encoder >>= λ enc. returns (Encoder.value enc).0

unfoldable pub find_node_message : Boost → Buffer → NodeData → NodeData → Encoder → Outcome Encoder
find_node_message boost transaction_id source target enc = start_dictionary enc >>= λ e1.
    add_element boost field_arguments e1 >>= λ e2. start_dictionary e2 >>= λ e3.
    add_dictionary_element boost field_peer_id (write source) e3 >>= λ e4.
    add_dictionary_element boost field_target (write target) e4 >>= λ e5.
    end_dictionary e5 >>= λ e6.
    add_dictionary_element boost field_query messages_find_node e6 >>= λ e7.
    add_dictionary_element boost field_transaction_id transaction_id e7 >>= λ e8.
    add_dictionary_element boost field_type type_query e8 >>= λ e9. end_dictionary e9

-- `query::FindNode::make`.
unfoldable pub make_find_node : Boost → Buffer → NodeData → NodeData → Outcome Buffer
unfolding find_node_message
make_find_node boost transaction_id source target =
    find_node_message boost transaction_id source target make_encoder >>= λ enc.
    returns (Encoder.value enc).0

-- `query::FindNode::getTarget`.
unfoldable pub target_of : Option Buffer → Outcome Buffer
target_of none = aborts
target_of (some token) = returns token

unfoldable pub get_target : Message → Outcome Buffer
unfolding target_of
get_target m = target_of (find_in (under field_arguments field_target) (data_of m))
