-- ===== src/Message/Tests.antt =====
-- The round trips of the messages with a concrete cast of numbers, and with memory for everything.
use torrent_sync.Common.{
  List, undefined, replicate, Outcome, ◌≡◌, refl, some, [], ◌∷◌, map, returns, arith,
}
use torrent_sync.NodeData.{NodeData}
use torrent_sync.NodeData.Codec.{Buffer, little, write, min_value}
use torrent_sync.Node.{Node}
use torrent_sync.Bencode.Decimal.{decimal, decimal-IsBoost}
use torrent_sync.Bencode.Encoder.{make_encoder, add_element}
use torrent_sync.Bencode.Encoder.Elements.{make_encoder-IsEncoder}
use torrent_sync.Bencode.Decoder.{DataMap}
use torrent_sync.Bencode.Decoder.Parse.{Reserve, decode}
use torrent_sync.Bencode.Decoder.Termination.{decode_ends}
use torrent_sync.Bencode.Decoder.Entries.{Entries, no_entry, string_under, dictionary_under}
use torrent_sync.Message.Text.{type_query, messages_ping, messages_find_node}
use torrent_sync.Message.{
  find_node, ping, plain, parse_message, get_id, get_transaction_id, get_message_type, get_type,
}
use torrent_sync.Message.Query.{make_ping, make_find_node, get_target}
use torrent_sync.Message.Query.RoundTrip.{
  IsSent, parse_message-make_find_node, parse_message-make_ping,
}
use torrent_sync.Message.Reply.{
  make_ping_reply, make_find_node_reply, check_ping, check_find_node, get_nodes,
}
use torrent_sync.Bencode.Encoder.Contract.{
  Call, begins_dictionary, ends_dictionary, adds_entry, adds_list,
}
use torrent_sync.Bencode.Encoder.Overflow.{add_element-undefined}
use torrent_sync.Bencode.Encoder.Content.{length-replicate}
use torrent_sync.Message.Reply.Nodes.{IsPeer, received}
use torrent_sync.Message.Reply.RoundTrip.{
  parse_message-make_ping_reply, parse_message-make_find_node_reply,
}

abbrev any_memory : Reserve
any_memory = λ n. returns tt

-- "aa".
abbrev an_identifier : Buffer
an_identifier = 97 ∷ 97 ∷ []

an_identifier-IsSent : IsSent any_memory an_identifier
an_identifier-IsSent = record { short = (refl, omega arith); memory = λ n h. refl }

abbrev a_source : NodeData
a_source = record { p1 = 1; p2 = 2; p3 = 3 }

abbrev a_target : NodeData
a_target = record { p1 = 4; p2 = 5; p3 = 6 }

abbrev a_peer : Node
a_peer = record {
  id = a_target;
  last_time_good = 7;
  last_unanswered_queries = 1;
  endpoint = some (record { address = 2130706433; port = 6881 });
}

a_peer-IsPeer : IsPeer a_peer
a_peer-IsPeer = record {
  words = omega arith;
  peer = record { address = 2130706433; port = 6881 };
  known = refl;
  address_fits = omega arith;
  port_fits = omega arith;
}

-- A dictionary in a dictionary in a dictionary, and another one behind them.
abbrev deep : Entries
deep =
    dictionary_under (97 ∷ [])
      (dictionary_under (98 ∷ []) (string_under (99 ∷ []) an_identifier no_entry) no_entry)
      (dictionary_under (100 ∷ []) no_entry (string_under (98 ∷ []) (98 ∷ 98 ∷ []) no_entry))

decode_ends_example : (r : Outcome DataMap) × (decode decimal any_memory an_identifier ≡ some r)
decode_ends_example = decode_ends decimal any_memory an_identifier

parse_message-make_find_node_example :
    (bytes : Buffer) × (data_map : DataMap) × (make_find_node decimal an_identifier a_source
        a_target
      ≡ returns bytes)
    × (parse_message decimal any_memory bytes ≡ some (returns (some (find_node data_map))))
    × (get_target (find_node data_map) ≡ returns (write a_target))
    × (get_id (find_node data_map) ≡ returns (write a_source))
    × (get_transaction_id (find_node data_map) ≡ returns an_identifier)
    × (get_message_type (find_node data_map) ≡ returns messages_find_node)
    × (get_type (find_node data_map) ≡ returns type_query)
parse_message-make_find_node_example =
    parse_message-make_find_node decimal decimal-IsBoost any_memory an_identifier
      an_identifier-IsSent a_source a_target

parse_message-make_ping_example :
    (bytes : Buffer) × (data_map : DataMap) × (make_ping decimal an_identifier a_source
      ≡ returns bytes)
    × (parse_message decimal any_memory bytes ≡ some (returns (some (ping data_map))))
    × (get_id (ping data_map) ≡ returns (write a_source))
    × (get_transaction_id (ping data_map) ≡ returns an_identifier)
    × (get_message_type (ping data_map) ≡ returns messages_ping)
    × (get_type (ping data_map) ≡ returns type_query)
parse_message-make_ping_example =
    parse_message-make_ping decimal decimal-IsBoost any_memory an_identifier an_identifier-IsSent
      a_source

parse_message-make_ping_reply_example :
    (bytes : Buffer) × (data_map : DataMap) × (make_ping_reply decimal an_identifier a_source
      ≡ returns bytes)
    × (parse_message decimal any_memory bytes ≡ some (returns (some (plain data_map))))
    × (check_ping (plain data_map) ≡ returns (plain data_map))
    × (get_id (plain data_map) ≡ returns (write a_source))
    × (get_transaction_id (plain data_map) ≡ returns an_identifier)
parse_message-make_ping_reply_example =
    parse_message-make_ping_reply decimal decimal-IsBoost any_memory an_identifier
      an_identifier-IsSent a_source

parse_message-make_find_node_reply_example :
    (bytes : Buffer) × (data_map : DataMap) × (make_find_node_reply decimal little an_identifier
        a_source
        (a_peer ∷ [])
      ≡ returns bytes)
    × (parse_message decimal any_memory bytes ≡ some (returns (some (plain data_map))))
    × (check_find_node (plain data_map) ≡ returns (plain data_map))
    × (get_id (plain data_map) ≡ returns (write a_source))
    × (get_transaction_id (plain data_map) ≡ returns an_identifier)
    × (get_nodes little 0 100 min_value (plain data_map)
        ≡ returns (map (received 100) (a_peer ∷ [])))
parse_message-make_find_node_reply_example =
    parse_message-make_find_node_reply decimal decimal-IsBoost any_memory an_identifier
      an_identifier-IsSent little a_source (a_peer ∷ []) 0 100 min_value (a_peer-IsPeer, tt)
      (λ e. cc) (omega arith)

add_element-undefined_example : add_element decimal (replicate 3000 65) make_encoder ≡ undefined
add_element-undefined_example =
    add_element-undefined decimal (replicate 3000 65) make_encoder make_encoder-IsEncoder.0
      (λ e. cc)
      (unfold make_encoder in omega (arith, length-replicate 3000 65, length-replicate 1024 0))

-- A dictionary with a list in it, and another one whose keys start anew.
abbrev some_calls : List Call
some_calls =
    begins_dictionary
    ∷ adds_entry (98 ∷ []) an_identifier
    ∷ adds_list (an_identifier ∷ [])
    ∷ ends_dictionary
    ∷ begins_dictionary
    ∷ adds_entry (97 ∷ []) an_identifier
    ∷ []
