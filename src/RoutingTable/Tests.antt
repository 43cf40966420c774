-- ===== src/RoutingTable/Tests.antt =====
-- The theorems on the routing table at a host with concrete numbers, and a peer.
use torrent_sync.Common.{
  ◌≡◌, ◌≢◌, ◌≤◌, length, ◌↔◌, ◌^◌, ◌+◌, refl, true, false, none, some, [], ◌∷◌, returns, throws,
  undefined, runtime_error, arith,
}
use torrent_sync.NodeData.{NodeData}
use torrent_sync.NodeData.Codec.{Buffer, little, write, min_value}
use torrent_sync.Node.{Endpoint}
use torrent_sync.NodeTree.{make_tree}
use torrent_sync.Bencode.Decimal.{decimal, decimal-IsBoost}
use torrent_sync.Bencode.Decoder.{DataMap, find_in, insert, same_string}
use torrent_sync.Message.{ping, get_id, get_type, get_transaction_id, required}
use torrent_sync.Message.Text.{
  under, equals, type_query, type_error, field_error_type, field_type, field_arguments,
  field_peer_id, field_transaction_id,
}
use torrent_sync.Message.Query.RoundTrip.{IsSent}
use torrent_sync.Callback.{mark_good, collect_nodes, verify_constraints}
use torrent_sync.Callback.Constraints.{IsFrom, verify_constraints_iff}
use torrent_sync.RoutingTable.{RoutingTable, Host, make_table}
use torrent_sync.RoutingTable.Transactions.Distinct.{later_transaction, later_transaction-distinct}
use torrent_sync.RoutingTable.Waiting.{Waiting}
use torrent_sync.RoutingTable.Receiving.{message_buffer_size, on_receive, schedule_next_receive}
use torrent_sync.RoutingTable.Starting.{
  initialize_network, initialize_table, on_timer, bootstrap_from,
}
use torrent_sync.RoutingTable.Starting.Once.{initialize_network_twice}
use torrent_sync.RoutingTable.Soundness.{IsSteady}
use torrent_sync.RoutingTable.Answers.Arrivals.{from_buffer-write}
use torrent_sync.RoutingTable.Answers.Errors.{on_receive-error}
use torrent_sync.RoutingTable.Answers.Sizes.{length-message_bytes}
use torrent_sync.Message.Shape.{message_bytes, flattened, decode-message_bytes}
use torrent_sync.Bencode.Decoder.Parse.{decode}
use torrent_sync.RoutingTable.Rounds.{Contacted, on_timer-Contacted}

abbrev pub a_host : Host
a_host = record {
  boost = decimal;
  reserve = λ n. returns tt;
  endian = little;
  now = 100;
  resolve = λ name port. [];
  open_socket = returns tt;
  bind_socket = λ endpoint. returns tt;
  stack = 0;
  garbage = min_value;
}

abbrev pub own_node : NodeData
own_node = record { p1 = 1; p2 = 2; p3 = 3 }

abbrev pub a_peer : NodeData
a_peer = record { p1 = 4; p2 = 5; p3 = 6 }

abbrev pub peer_endpoint : Endpoint
peer_endpoint = record { address = 2130706433; port = 6881 }

-- "aa".
abbrev pub tid : Buffer
tid = 97 ∷ 97 ∷ []

pub tid-IsSent : IsSent a_host.reserve tid
tid-IsSent = record { short = (refl, omega arith); memory = λ n h. refl }

-- A message with the identifier of the peer.
abbrev pub a_message : DataMap
a_message =
    (field_type, type_query)
    ∷ (field_transaction_id, tid)
    ∷ (under field_arguments field_peer_id, write a_peer)
    ∷ []

pub a_message_id : get_id (ping a_message) ≡ returns (write a_peer)
unfolding get_id get_type required find_in equals
a_message_id = refl

-- A table whose network is initialised, with two addresses to contact.
abbrev a_table : RoutingTable
a_table = record {
  table = make_tree own_node;
  initial_addresses = peer_endpoint ∷ record { address = 16909060; port = 8991 } ∷ [];
  callbacks = [];
  close_nodes_count = 0;
  transaction_id = 65535;
  send_queue_counter = 0;
  recv_open = true;
  send_open = true;
  sending = [];
  receives = 1;
  timers = 1;
}

a_table-IsSteady : IsSteady own_node 1 1 a_table
a_table-IsSteady = record {
  tree = refl;
  entries = tt;
  counted = refl;
  bounded = omega arith;
  no_close = refl;
  sixteen_bits = omega arith;
  listening = refl;
  waking = refl;
}

-- Two callbacks under the identifier of the peer, of which the second waits for the transaction.
abbrev some_callbacks : Waiting
some_callbacks =
    (
      write a_peer,
      record { action = mark_good; source = none; transaction_id = 98 ∷ []; creation_time = 1 },
    )
    ∷ (
      write a_peer,
      record {
        action = collect_nodes;
        source = some a_peer;
        transaction_id = tid;
        creation_time = 2;
      },
    )
    ∷ []

on_timer-Contacted_example :
    Contacted a_host own_node 1 1 5
      (bootstrap_from a_host a_table.initial_addresses)
      a_table
      (on_timer a_host false a_table)
on_timer-Contacted_example =
    on_timer-Contacted a_host own_node a_table decimal-IsBoost a_table-IsSteady (omega arith)

verify_constraints_iff_example :
    (verify_constraints little
        (record {
          action = mark_good;
          source = some a_peer;
          transaction_id = tid;
          creation_time = 1;
        })
        (ping a_message)
      ≡ returns true)
    ↔ (IsFrom (some a_peer) a_peer × (tid ≡ tid))
verify_constraints_iff_example =
    verify_constraints_iff little
      (record { action = mark_good; source = some a_peer; transaction_id = tid; creation_time = 1 })
      (ping a_message) (write a_peer) tid a_peer a_message_id
      (from_buffer-write little a_peer (omega arith))
      (unfold get_transaction_id required find_in in refl)

later_transaction-distinct_example :
    ((later_transaction 0 a_table).0 ≢ (later_transaction 3 a_table).0)
    × ((later_transaction (0 + 2 ^ 16) a_table).0 ≡ (later_transaction 0 a_table).0)
later_transaction-distinct_example =
    later_transaction-distinct a_table 0 3 (omega arith) (omega arith) (omega arith)

initialize_network_twice_example :
    initialize_network a_host peer_endpoint (record (make_table own_node 65535) {
      recv_open = true;
      send_open = true;
      receives = 1;
      timers = 1;
    })
    ≡ (
      throws runtime_error,
      record (make_table own_node 65535) {
        recv_open = true;
        send_open = true;
        receives = 1;
        timers = 1;
      },
    )
unfolding make_table initialize_network schedule_next_receive initialize_table
initialize_network_twice_example =
    initialize_network_twice a_host a_host peer_endpoint peer_endpoint (make_table own_node 65535)
      (record (make_table own_node 65535) {
        recv_open = true;
        send_open = true;
        receives = 1;
        timers = 1;
      })
      refl

-- An error message with an empty dictionary as the error.
abbrev error_fields : DataMap
error_fields = (field_transaction_id, tid) ∷ (field_type, type_error) ∷ []

abbrev error_bytes : Buffer
error_bytes = message_bytes decimal field_error_type [] error_fields

error_bytes-decoded :
    decode decimal a_host.reserve error_bytes
    ≡ some (returns (flattened field_error_type [] error_fields))
error_bytes-decoded =
    decode-message_bytes decimal decimal-IsBoost a_host.reserve field_error_type [] error_fields
      (λ e. cc) (omega arith, refl) tt
      (((omega arith, refl), omega arith, refl), (((omega arith, refl), omega arith, refl), tt))

error_bytes-short : length error_bytes ≤ message_buffer_size
error_bytes-short = omega (
  arith,
  length-message_bytes decimal decimal-IsBoost field_error_type [] error_fields (omega arith) tt
      ((omega arith, omega arith), ((omega arith, omega arith), tt)),
)

on_receive-error_example : (on_receive a_host false error_bytes peer_endpoint a_table).0 ≡ undefined
on_receive-error_example =
    on_receive-error a_host error_bytes (flattened field_error_type [] error_fields) peer_endpoint
      a_table error_bytes-short error_bytes-decoded (unfold find_in insert same_string in refl)
