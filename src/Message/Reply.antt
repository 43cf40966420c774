-- ===== src/Message/Reply.antt =====
-- torrentsync/dht/message/reply: making and checking the replies, and the nodes of a find_node
-- reply.
pub mod Nodes
pub mod RoundTrip
pub mod Empty
use torrent_sync.Common.{
  ℕ, zero, suc, ◌+◌, ◌*◌, Bool, true, false, leb, if◌then◌else◌, Option, none, some, List, [], ◌∷◌,
  ◌++◌, length, take, drop, replicate, Outcome, returns, throws, aborts, malformed_message, assert,
  ◌>>=◌, ◌>>◌,
}
use torrent_sync.NodeData.{NodeData}
use torrent_sync.NodeData.Codec.{Buffer, Endian, write}
use torrent_sync.Node.{Node, packed_node_size, get_packed_node, parse_node}
use torrent_sync.NodeTree.{dht_find_node_count}
use torrent_sync.Bencode.Boost.{Boost}
use torrent_sync.Bencode.Encoder.{
  Encoder, make_encoder, resize, copy_to, start_dictionary, end_dictionary, add_element,
  add_dictionary_element,
}
use torrent_sync.Bencode.Encoder
use torrent_sync.Bencode.Decoder.{find_in}
use torrent_sync.Message.Text.{
  type_reply, field_type, field_peer_id, field_transaction_id, field_reply, field_nodes, under,
}
use torrent_sync.Message.{Message, data_of, required}

unfoldable pub ping_message : Boost → Buffer → NodeData → Encoder → Outcome Encoder
ping_message boost transaction_id source enc = start_dictionary enc >>= λ e1.
    add_element boost field_reply e1 >>= λ e2. start_dictionary e2 >>= λ e3.
    add_dictionary_element boost field_peer_id (write source) e3 >>= λ e4.
    end_dictionary e4 >>= λ e5.
    add_dictionary_element boost field_transaction_id transaction_id e5 >>= λ e6.
    add_dictionary_element boost field_type type_reply e6 >>= λ e7. end_dictionary e7

-- `reply::Ping::make`.
unfoldable pub make_ping_reply : Boost → Buffer → NodeData → Outcome Buffer
unfolding ping_message
make_ping_reply boost transaction_id source =
    ping_message boost transaction_id source make_encoder >>= λ enc. returns (Encoder.value enc).0

-- The loop that copies the nodes into `nodeData`, from `bufferIndex` on; `nodes` is what the
-- function yields.
unfoldable pub copy_nodes : Endian → List Node → ℕ → Buffer → Outcome (ℕ × Buffer)
copy_nodes e [] buffer_index node_data = returns (buffer_index, node_data)
copy_nodes e (n ∷ nodes) buffer_index node_data = get_packed_node e n >>= λ packed.
    assert (leb (buffer_index + length packed) (length node_data)) >>= λ _.
    copy_to buffer_index packed node_data >>= λ copied.
    copy_nodes e nodes (buffer_index + packed_node_size) copied

unfoldable pub pack_nodes : Endian → List Node → Outcome Buffer
unfolding copy_nodes resize
pack_nodes e nodes =
    copy_nodes e nodes 0 (replicate (packed_node_size * dht_find_node_count) 0) >>= λ r.
    returns (resize r.0 r.1)

unfoldable pub find_node_message : Boost → Buffer → NodeData → Buffer → Encoder → Outcome Encoder
find_node_message boost transaction_id source node_data enc = start_dictionary enc >>= λ e1.
    add_element boost field_reply e1 >>= λ e2. start_dictionary e2 >>= λ e3.
    add_dictionary_element boost field_peer_id (write source) e3 >>= λ e4.
    add_dictionary_element boost field_nodes node_data e4 >>= λ e5. end_dictionary e5 >>= λ e6.
    add_dictionary_element boost field_transaction_id transaction_id e6 >>= λ e7.
    add_dictionary_element boost field_type type_reply e7 >>= λ e8. end_dictionary e8

-- `reply::FindNode::make`.
unfoldable pub make_find_node_reply :
    Boost → Endian → Buffer → NodeData → List Node → Outcome Buffer
unfolding pack_nodes find_node_message
make_find_node_reply boost e transaction_id source nodes = pack_nodes e nodes >>= λ node_data.
    find_node_message boost transaction_id source node_data make_encoder >>= λ enc.
    returns (Encoder.value enc).0

-- `reply::Ping::check`, for the constructors.
unfoldable pub check_ping : Message → Outcome Message
unfolding required
check_ping m = required (find_in (under field_reply field_peer_id) (data_of m)) >>= λ _. returns m

-- `reply::FindNode::check`.
unfoldable pub check_find_node : Message → Outcome Message
unfolding required
check_find_node m = required (find_in (under field_reply field_peer_id) (data_of m)) >>= λ _.
    required (find_in (under field_reply field_nodes) (data_of m)) >>= λ _. returns m

-- The loop of `getNodes`, at most `rounds` times: each node is parsed from 26 bytes.
unfoldable pub parse_nodes : Endian → ℕ → ℕ → NodeData → ℕ → Buffer → Outcome (List Node)
parse_nodes e stack now garbage zero bytes = returns []
parse_nodes e stack now garbage (suc rounds) bytes =
    if leb packed_node_size (length bytes)
    then (parse_node e stack now garbage (take packed_node_size bytes) >>= λ n.
        parse_nodes e stack now garbage rounds (drop packed_node_size bytes) >>= λ ns.
        returns (n ∷ ns))
    else returns []

-- The required token, or a failed assertion; the length is more rounds than the loop can take.
unfoldable pub nodes_of : Endian → ℕ → ℕ → NodeData → Option Buffer → Outcome (List Node)
unfolding parse_nodes
nodes_of e stack now garbage none = aborts
nodes_of e stack now garbage (some token) = parse_nodes e stack now garbage (length token) token

-- `reply::FindNode::getNodes`.
unfoldable pub get_nodes : Endian → ℕ → ℕ → NodeData → Message → Outcome (List Node)
unfolding nodes_of
get_nodes e stack now garbage m =
    nodes_of e stack now garbage (find_in (under field_reply field_nodes) (data_of m))
