-- ===== src/RoutingTable/Starting.antt =====
-- torrentsync/dht/RoutingTable_InitializeTable.cpp: the rounds that contact the initial addresses.
pub mod Once
use torrent_sync.Common.{
  ℕ, zero, suc, ◌+◌, ◌-◌, Bool, true, false, ◌||◌, ltb, if◌then◌else◌, Option, none, some, List, [],
  ◌∷◌, ◌++◌, throws, runtime_error, drop,
}
use torrent_sync.NodeData.Codec.{Buffer}
use torrent_sync.Node.{Endpoint}
use torrent_sync.NodeTree.{get_table_node}
use torrent_sync.Message.Query.{make_find_node}
use torrent_sync.Callback.{collect_nodes}
use torrent_sync.RoutingTable.{RoutingTable, Host, Handler, done, lift, gets, modify, ◌>>=◌, ◌>>◌}
use torrent_sync.RoutingTable.Transactions.{new_transaction}
use torrent_sync.RoutingTable.Sending.{send_message}
use torrent_sync.RoutingTable.Waiting.{register_callback}
use torrent_sync.RoutingTable.Receiving.{schedule_next_receive}

-- Names and ports of the known servers.
abbrev pub bootstrap_addresses : List (Buffer × Buffer)
bootstrap_addresses =
    (
      114 ∷ 111 ∷ 117 ∷ 116 ∷ 101 ∷ 114 ∷ 46 ∷ 98 ∷ 105 ∷ 116 ∷ 116 ∷ 111 ∷ 114 ∷ 114 ∷ 101 ∷ 110
          ∷ 116 ∷ 46 ∷ 99 ∷ 111 ∷ 109 ∷ [],
      56 ∷ 57 ∷ 57 ∷ 49 ∷ [],
    )
    ∷ (
      114 ∷ 111 ∷ 117 ∷ 116 ∷ 101 ∷ 114 ∷ 46 ∷ 117 ∷ 116 ∷ 111 ∷ 114 ∷ 114 ∷ 101 ∷ 110 ∷ 116 ∷ 46
          ∷ 99 ∷ 111 ∷ 109 ∷ [],
      54 ∷ 56 ∷ 56 ∷ 49 ∷ [],
    )
    ∷ (
      100 ∷ 104 ∷ 116 ∷ 46 ∷ 116 ∷ 114 ∷ 97 ∷ 110 ∷ 115 ∷ 109 ∷ 105 ∷ 115 ∷ 115 ∷ 105 ∷ 111 ∷ 110
          ∷ 98 ∷ 116 ∷ 46 ∷ 99 ∷ 111 ∷ 109 ∷ [],
      54 ∷ 56 ∷ 56 ∷ 49 ∷ [],
    )
    ∷ []

abbrev pub dht_close_enough : ℕ
dht_close_enough = 10

abbrev pub initialize_ping_batch_size : ℕ
initialize_ping_batch_size = 5

-- The loop over the servers, which appends what each one resolves to.
unfoldable pub resolve_all : Host → List (Buffer × Buffer) → List Endpoint → List Endpoint
resolve_all h [] addresses = addresses
resolve_all h (a ∷ rest) addresses = resolve_all h rest (addresses ++ h.resolve a.0 a.1)

unfoldable pub bootstrap_from : Host → List Endpoint → List Endpoint
unfolding resolve_all
bootstrap_from h [] = resolve_all h bootstrap_addresses []
bootstrap_from h (a ∷ rest) = a ∷ rest

-- `bootstrap`, which does nothing while addresses are left.
unfoldable pub bootstrap : Host → Handler (Unit {0})
unfolding bootstrap_from
bootstrap h = modify (λ s. record s { initial_addresses = bootstrap_from h s.initial_addresses })

-- `initializeTable`: a timer is started.
unfoldable pub initialize_table : Handler (Unit {0})
initialize_table = modify (λ s. record s { timers = s.timers + 1 })

-- A find_node query for the table's own identifier, and its callback.
unfoldable pub contact : Host → Endpoint → Handler (Unit {0})
unfolding new_transaction make_find_node register_callback send_message get_table_node
contact h endpoint = do
  transaction ← new_transaction
  own ← gets (λ s. get_table_node s.table)
  query ← lift (make_find_node h.boost transaction own own)
  register_callback h collect_nodes transaction none
  send_message query endpoint

-- The body of the loop, with the first address, and then its other rounds.
unfoldable pub contact_first : Host → List Endpoint → Handler (Unit {0}) → Handler (Unit {0})
unfolding contact
contact_first h [] others = done tt
contact_first h (a ∷ rest) others = do
  modify (λ s. record s { initial_addresses = rest })
  contact h a
  others

-- The loop, for at most `rounds` addresses.
unfoldable pub contact_batch : Host → ℕ → Handler (Unit {0})
unfolding contact_first
contact_batch h zero = done tt
contact_batch h (suc rounds) =
    let others = contact_batch h rounds in
    gets (λ s. s.initial_addresses) >>= λ addresses. contact_first h addresses others

-- The handler of the timer.
unfoldable pub on_timer : Host → Bool → Handler (Unit {0})
unfolding bootstrap initialize_table contact_batch
on_timer h error = do
  modify (λ s. record s { timers = s.timers - 1 })
  if error
      then initialize_table
      else (bootstrap h >>= λ _. contact_batch h initialize_ping_batch_size >>= λ _.
          gets (λ s. s.close_nodes_count) >>= λ close.
          if ltb close dht_close_enough
          then initialize_table
          else modify (λ s. record s { initial_addresses = [] }))

-- `initializeNetwork`: opens and binds the sockets, once.
unfoldable pub initialize_network : Host → Endpoint → Handler (Unit {0})
unfolding schedule_next_receive initialize_table
initialize_network h endpoint = do
  opened ← gets (λ s. s.send_open || s.recv_open)
  if opened
      then lift (throws runtime_error)
      else (lift h.open_socket >>= λ _. modify (λ s. record s { send_open = true }) >>= λ _.
          lift h.open_socket >>= λ _. modify (λ s. record s { recv_open = true }) >>= λ _.
          lift (h.bind_socket endpoint) >>= λ _. schedule_next_receive >>= λ _. initialize_table)
