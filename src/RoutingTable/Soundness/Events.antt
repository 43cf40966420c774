-- ===== src/RoutingTable/Soundness/Events.antt =====
-- Every handler that the I/O service calls keeps the table steady.
use torrent_sync.Common.{
  subst, ℕ, zero, suc, ◌≡◌, refl, ◌+◌, ◌-◌, ◌<◌, Bool, true, ◌||◌, List, [], ◌∷◌, length, returns,
  throws, arith, runtime_error, min,
}
use torrent_sync.NodeData.{NodeData}
use torrent_sync.NodeData.Codec.{Buffer}
use torrent_sync.Node.{Endpoint}
use torrent_sync.RoutingTable.{RoutingTable, Host, Handler, make_table, lift, modify, ◌>>=◌}
use torrent_sync.RoutingTable.Sending.{remove_at, finish_send, count_down}
use torrent_sync.RoutingTable.Receiving.{
  on_receive, filled, schedule_next_receive, message_buffer_size,
}
use torrent_sync.RoutingTable.Starting.{initialize_network, initialize_table}
use torrent_sync.RoutingTable.Events.{Event, received, sent, expired, IsPending, handle_event}
use torrent_sync.RoutingTable.Triples.{
  Ended, Leads, Keeps, Leads->>=, Leads-reads, Leads-modify, Leads-if,
}
use torrent_sync.RoutingTable.Soundness.{IsSteady}
use torrent_sync.RoutingTable.Soundness.Receiving.{recv_message-Keeps}
use torrent_sync.RoutingTable.Soundness.Starting.{on_timer-Leads, initialize_table-Leads}

length-remove_at :
    {A : Type 0} (i : ℕ) (xs : List A) → i < length xs → length (remove_at i xs) + 1 ≡ length xs
unfolding remove_at
length-remove_at i [] h = absurd (omega arith)
length-remove_at zero (x ∷ xs) h = omega arith
length-remove_at (suc i) (x ∷ xs) h = omega (arith, length-remove_at i xs (omega arith))

module _ (own : NodeData) where
  listening-IsSteady :
      {r k : ℕ} (t : ℕ) (s : RoutingTable) (n : ℕ)
      → IsSteady own r t s
      → n ≡ k
      → IsSteady own k t (record s { receives = n })
  listening-IsSteady t s n p e = record {
    tree = p.tree;
    entries = p.entries;
    counted = p.counted;
    bounded = p.bounded;
    no_close = p.no_close;
    sixteen_bits = p.sixteen_bits;
    listening = e;
    waking = p.waking;
  }

  schedule_next_receive-Leads :
      (r t : ℕ) {E : RoutingTable → Type 0}
      → Leads (IsSteady own r t) schedule_next_receive (λ u. IsSteady own (r + 1) t) E
  unfolding schedule_next_receive
  schedule_next_receive-Leads r t = record {
    holds = λ s p. listening-IsSteady t s (s.receives + 1) p (omega (arith, p.listening));
  }

  on_receive-Keeps :
      (h : Host) (error : Bool) (datagram : Buffer) (sender : Endpoint)
      → Keeps (IsSteady own 1 1) (on_receive h error datagram sender)
  unfolding on_receive
  on_receive-Keeps h error datagram sender =
      Leads->>= {P = IsSteady own 1 1} {Q = λ u. IsSteady own 0 1}
        (Leads-modify (λ s. record s { receives = s.receives - 1 })
          (λ s p. listening-IsSteady 1 s (s.receives - 1) p (omega (arith, p.listening))))
        (λ u. Leads->>= (schedule_next_receive-Leads 0 1) (λ v.
          recv_message-Keeps own 1 1 h error (filled datagram)
            (min message_buffer_size (length datagram)) sender))

  finish_send-IsSteady :
      (i : ℕ) (s : RoutingTable)
      → i < length s.sending
      → IsSteady own 1 1 s
      → IsSteady own 1 1 (finish_send i s).1
  unfolding finish_send count_down
  finish_send-IsSteady i s h p =
      let shorter = length-remove_at i s.sending h in
      record {
        tree = p.tree;
        entries = p.entries;
        counted = omega (arith, p.counted, p.bounded, shorter);
        bounded = omega (arith, p.bounded, shorter);
        no_close = p.no_close;
        sixteen_bits = p.sixteen_bits;
        listening = p.listening;
        waking = p.waking;
      }

  pub handle_event-IsSteady :
      (h : Host) (event : Event) (s after : RoutingTable)
      → IsPending event s
      → handle_event h event s ≡ (returns tt, after)
      → IsSteady own 1 1 s
      → IsSteady own 1 1 after
  unfolding handle_event
  handle_event-IsSteady h (received error datagram sender) s after pending e p =
      subst (Ended (λ u. IsSteady own 1 1) (IsSteady own 1 1)) e
        ((on_receive-Keeps h error datagram sender).holds s p)
  handle_event-IsSteady h (sent i) s after pending e p =
      subst (λ r. IsSteady own 1 1 r.1) e (finish_send-IsSteady i s pending p)
  handle_event-IsSteady h (expired error) s after pending e p =
      subst (Ended (λ u. IsSteady own 1 1) (IsSteady own 1 0)) e
        ((on_timer-Leads own 1 h error).holds s p)

  -- A table that has just been made.
  make_table-IsSteady : (random : ℕ) → IsSteady own 0 0 (make_table own random)
  unfolding make_table
  make_table-IsSteady random = record {
    tree = refl;
    entries = tt;
    counted = refl;
    bounded = omega arith;
    no_close = refl;
    sixteen_bits = omega arith;
    listening = refl;
    waking = refl;
  }

  open_socket-Leads :
      (f : RoutingTable → RoutingTable)
      → ((s : RoutingTable) → IsSteady own 0 0 s → IsSteady own 0 0 (f s))
      → Leads (IsSteady own 0 0) (modify f) (λ u. IsSteady own 0 0) (λ s. Unit {0})
  open_socket-Leads f step = record { holds = step }

  -- A network that is initialised listens, and has a timer under way.
  initialize_network-Leads :
      (h : Host) (endpoint : Endpoint)
      → Leads
          (IsSteady own 0 0)
          (initialize_network h endpoint)
          (λ u. IsSteady own 1 1)
          (λ s. Unit {0})
  unfolding initialize_network
  initialize_network-Leads h endpoint =
      Leads->>= (Leads-reads (λ s. returns (s.send_open || s.recv_open)) (λ s p. tt)) (λ opened.
        Leads-if opened (lift (throws runtime_error)) bound (record { holds = λ s p. tt }) opens)
    where
      bound : Handler (Unit {0})
      bound = lift h.open_socket >>= λ _. modify (λ s. record s { send_open = true }) >>= λ _.
          lift h.open_socket >>= λ _. modify (λ s. record s { recv_open = true }) >>= λ _.
          lift (h.bind_socket endpoint) >>= λ _. schedule_next_receive >>= λ _. initialize_table

      opens : Leads (IsSteady own 0 0) bound (λ u. IsSteady own 1 1) (λ s. Unit {0})
      opens = Leads->>= (Leads-reads (λ s. h.open_socket) (λ s p. tt)) (λ u.
          Leads->>=
            (open_socket-Leads (λ s. record s { send_open = true })
              (λ s p. same s true s.recv_open p))
            (λ v. Leads->>= (Leads-reads (λ s. h.open_socket) (λ s p. tt)) (λ w.
              Leads->>=
                (open_socket-Leads (λ s. record s { recv_open = true })
                  (λ s p. same s s.send_open true p))
                (λ x. Leads->>= (Leads-reads (λ s. h.bind_socket endpoint) (λ s p. tt)) (λ y.
                  Leads->>= (schedule_next_receive-Leads 0 0)
                    (λ z. initialize_table-Leads own 1 0))))))
        where
          same :
              (s : RoutingTable) (a b : Bool)
              → IsSteady own 0 0 s
              → IsSteady own 0 0 (record s { send_open = a; recv_open = b })
          same s a b p = record {
            tree = p.tree;
            entries = p.entries;
            counted = p.counted;
            bounded = p.bounded;
            no_close = p.no_close;
            sixteen_bits = p.sixteen_bits;
            listening = p.listening;
            waking = p.waking;
          }

  pub initialize_network-IsSteady :
      (h : Host) (random : ℕ) (endpoint : Endpoint)
      → Ended
          (λ u. IsSteady own 1 1)
          (λ s. Unit {0})
          (initialize_network h endpoint (make_table own random))
  initialize_network-IsSteady h random endpoint =
      (initialize_network-Leads h endpoint).holds (make_table own random)
        (make_table-IsSteady random)
