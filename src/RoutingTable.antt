-- ===== src/RoutingTable.antt =====
-- torrentsync/dht/RoutingTable.h and RoutingTable.cpp: the state of the routing table, and the
-- functions that run on it. The state holds what the I/O service still has to do for the table.
pub mod Sending
pub mod Transactions
pub mod Waiting
pub mod Handlers
pub mod Actions
pub mod Receiving
pub mod Starting
pub mod Events
pub mod Triples
pub mod Soundness
pub mod Answers
pub mod Rounds
pub mod Tests
use torrent_sync.Common.{
  ℕ, zero, suc, ◌+◌, ◌%◌, ◌^◌, Bool, true, false, Option, none, some, List, [], ◌∷◌, ◌++◌, Outcome,
  returns, throws, aborts, undefined, Exception,
}
use torrent_sync.NodeData.{NodeData}
use torrent_sync.NodeData.Codec.{Buffer, Endian}
use torrent_sync.Node.{Endpoint}
use torrent_sync.NodeTree.{NodeTree, make_tree}
use torrent_sync.Bencode.Boost.{Boost}
use torrent_sync.Bencode.Decoder.Parse.{Reserve}
use torrent_sync.Callback.{Callback}

-- `receives`, `timers` and `sending` count or hold the handlers that the I/O service has not
-- called yet; `send_queue_counter` is the static variable of `sendMessage`.
pub record RoutingTable : Type 0 where
  pub table : NodeTree
  pub initial_addresses : List Endpoint
  pub callbacks : List (Buffer × Callback)
  pub close_nodes_count : ℕ
  pub transaction_id : ℕ
  pub send_queue_counter : ℕ
  pub recv_open : Bool
  pub send_open : Bool
  pub sending : List (Buffer × Endpoint)
  pub receives : ℕ
  pub timers : ℕ

-- What the machine and the libraries do while one handler runs: the clock, the byte order, the
-- numbers of Boost, the memory, the resolver's answer to a name and a port, how opening and binding a socket
-- end, and what the stack holds before it is written.
pub record Host : Type 0 where
  pub boost : Boost
  pub reserve : Reserve
  pub endian : Endian
  pub now : ℕ
  pub resolve : Buffer → Buffer → List Endpoint
  pub open_socket : Outcome (Unit {0})
  pub bind_socket : Endpoint → Outcome (Unit {0})
  pub stack : ℕ
  pub garbage : NodeData

-- The constructor: `random_node` is `NodeData::getRandom()`, and `random` is `rand()`.
unfoldable pub make_table : NodeData → ℕ → RoutingTable
unfolding make_tree
make_table random_node random = record {
  table = make_tree random_node;
  initial_addresses = [];
  callbacks = [];
  close_nodes_count = 0;
  transaction_id = random % 2 ^ 16;
  send_queue_counter = 0;
  recv_open = false;
  send_open = false;
  sending = [];
  receives = 0;
  timers = 0;
}

-- A function of the table: what is written stays written when it throws.
abbrev pub Handler : Type 0 → Type 0
Handler A = RoutingTable → Outcome A × RoutingTable

module _ {A : Type 0} where
  abbrev pub done : A → Handler A
  done a s = (returns a, s)

  abbrev pub lift : Outcome A → Handler A
  lift o s = (o, s)

  abbrev pub gets : (RoutingTable → A) → Handler A
  gets f s = (returns (f s), s)

abbrev pub modify : (RoutingTable → RoutingTable) → Handler (Unit {0})
modify f s = (returns tt, f s)

-- The rest of a function, after what its first part came to.
abbrev pub carry_on :
    {A B : Type 0} → Outcome A × RoutingTable → (A → Handler B) → Outcome B × RoutingTable
carry_on (returns a, s) k = k a s
carry_on (throws e, s) k = (throws e, s)
carry_on (aborts, s) k = (aborts, s)
carry_on (undefined, s) k = (undefined, s)

infixl 5 ◌>>=◌ ◌>>◌
abbrev pub ◌>>=◌ : {A B : Type 0} → Handler A → (A → Handler B) → Handler B
◌>>=◌ m k s = carry_on (m s) k

abbrev pub ◌>>◌ : {B : Type 0} → Handler (Unit {0}) → Handler B → Handler B
m >> k = m >>= λ _. k

-- `tableMaintenance` and `lookForNode` are not implemented.
unfoldable pub table_maintenance : Handler (Unit {0})
table_maintenance = lift (throws Exception.runtime_error)

unfoldable pub look_for_node : Handler (Unit {0})
look_for_node = lift (throws Exception.runtime_error)
