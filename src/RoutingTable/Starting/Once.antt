-- ===== src/RoutingTable/Starting/Once.antt =====
-- The network is initialised once.
use torrent_sync.Common.{subst, ◌≡◌, refl, true, ◌||◌, returns, throws, runtime_error}
use torrent_sync.Node.{Endpoint}
use torrent_sync.RoutingTable.{RoutingTable, Host, Handler, lift, modify, ◌>>=◌}
use torrent_sync.RoutingTable.Receiving.{schedule_next_receive}
use torrent_sync.RoutingTable.Starting.{initialize_table, initialize_network}
use torrent_sync.RoutingTable.Triples.{Ended, Leads, Leads->>=, Leads-reads, Leads-if}

-- Both sockets are open.
abbrev IsOpen : RoutingTable → Type 0
IsOpen s = (s.send_open ≡ true) × (s.recv_open ≡ true)

abbrev Anything : RoutingTable → Type 0
Anything s = Unit {0}

scheduled : Leads IsOpen schedule_next_receive (λ u. IsOpen) Anything
unfolding schedule_next_receive
scheduled = record { holds = λ s p. p }

timed : Leads IsOpen initialize_table (λ u. IsOpen) Anything
unfolding initialize_table
timed = record { holds = λ s p. p }

initialize_network-IsOpen :
    (h : Host) (endpoint : Endpoint)
    → Leads Anything (initialize_network h endpoint) (λ u. IsOpen) Anything
unfolding initialize_network
initialize_network-IsOpen h endpoint =
    Leads->>= (Leads-reads (λ s. returns (s.send_open || s.recv_open)) (λ s p. tt)) (λ opened.
      Leads-if opened (lift (throws runtime_error)) both (record { holds = λ s p. tt }) opens)
  where
    both : Handler (Unit {0})
    both = lift h.open_socket >>= λ _. modify (λ s. record s { send_open = true }) >>= λ _.
        lift h.open_socket >>= λ _. modify (λ s. record s { recv_open = true }) >>= λ _.
        lift (h.bind_socket endpoint) >>= λ _. schedule_next_receive >>= λ _. initialize_table

    sends :
        Leads Anything
          (modify (λ s. record s { send_open = true }))
          (λ u s. s.send_open ≡ true)
          Anything
    sends = record { holds = λ s p. refl }

    receives :
        Leads
          (λ s. s.send_open ≡ true)
          (modify (λ s. record s { recv_open = true }))
          (λ u. IsOpen)
          Anything
    receives = record { holds = λ s p. (p, refl) }

    opens : Leads Anything both (λ u. IsOpen) Anything
    opens = Leads->>= (Leads-reads (λ s. h.open_socket) (λ s p. tt)) (λ u. Leads->>= sends (λ v.
        Leads->>= (Leads-reads (λ s. h.open_socket) (λ s p. tt)) (λ w. Leads->>= receives (λ x.
          Leads->>= (Leads-reads (λ s. h.bind_socket endpoint) (λ s p. tt))
            (λ y. Leads->>= scheduled (λ z. timed))))))

open_throws :
    (h : Host) (endpoint : Endpoint) (s : RoutingTable)
    → IsOpen s
    → initialize_network h endpoint s ≡ (throws runtime_error, s)
unfolding initialize_network
open_throws h endpoint s p = rw p.0 refl

-- Once `initializeNetwork` has returned, every further call throws and changes nothing.
pub initialize_network_twice :
    (h again : Host) (endpoint other : Endpoint) (s after : RoutingTable)
    → initialize_network h endpoint s ≡ (returns tt, after)
    → initialize_network again other after ≡ (throws runtime_error, after)
initialize_network_twice h again endpoint other s after e =
    open_throws again other after
      (subst (Ended (λ u. IsOpen) Anything) e ((initialize_network-IsOpen h endpoint).holds s tt))
