-- ===== src/RoutingTable/Soundness/Starting.antt =====
-- The rounds of the initialisation, and the start of the network, keep the table steady.
use torrent_sync.Common.{
  ℕ, zero, suc, ◌≡◌, ◌+◌, ◌-◌, Bool, true, ltb, List, [], ◌∷◌, none, some, returns, arith,
  if◌then◌else◌,
}
use torrent_sync.NodeData.{NodeData}
use torrent_sync.Node.{Endpoint, Node}
use torrent_sync.NodeTree.{get_table_node}
use torrent_sync.Message.Query.{make_find_node, make_ping}
use torrent_sync.Callback.{collect_nodes, mark_good}
use torrent_sync.RoutingTable.{RoutingTable, Host, Handler, modify, gets, ◌>>=◌}
use torrent_sync.RoutingTable.Handlers.{endpoint_of, do_ping}
use torrent_sync.RoutingTable.Starting.{
  bootstrap, initialize_table, contact, contact_first, contact_batch, on_timer,
  initialize_ping_batch_size, dht_close_enough,
}
use torrent_sync.RoutingTable.Triples.{Leads, Keeps, Leads->>=, Leads-reads, Leads-modify, Leads-if}
use torrent_sync.RoutingTable.Soundness.{IsSteady}
use torrent_sync.RoutingTable.Soundness.Parts.{
  send_message-Keeps, register_callback-Leads, new_transaction-Leads,
}

module _ (own : NodeData) (r : ℕ) where
  -- With the handlers under way counted, a timer is started or taken.
  pub timers-IsSteady :
      {t k : ℕ} (n : ℕ) (s : RoutingTable)
      → IsSteady own r t s
      → n ≡ k
      → IsSteady own r k (record s { timers = n })
  timers-IsSteady n s p e = record {
    tree = p.tree;
    entries = p.entries;
    counted = p.counted;
    bounded = p.bounded;
    no_close = p.no_close;
    sixteen_bits = p.sixteen_bits;
    listening = p.listening;
    waking = e;
  }

  pub initialize_table-Leads :
      (t : ℕ) {E : RoutingTable → Type 0}
      → Leads (IsSteady own r t) initialize_table (λ u. IsSteady own r (t + 1)) E
  unfolding initialize_table
  initialize_table-Leads t = record {
    holds = λ s p. timers-IsSteady (s.timers + 1) s p (omega (arith, p.waking));
  }

  module _ (t : ℕ) where
    pub addresses-Keeps :
        (f : RoutingTable → List Endpoint)
        → Keeps (IsSteady own r t) (modify (λ s. record s { initial_addresses = f s }))
    addresses-Keeps f = record {
      holds = λ s p. record {
        tree = p.tree;
        entries = p.entries;
        counted = p.counted;
        bounded = p.bounded;
        no_close = p.no_close;
        sixteen_bits = p.sixteen_bits;
        listening = p.listening;
        waking = p.waking;
      };
    }

    pub contact-Keeps :
        (h : Host) (endpoint : Endpoint) → Keeps (IsSteady own r t) (contact h endpoint)
    unfolding contact
    contact-Keeps h endpoint = Leads->>= new_transaction-Leads (λ transaction.
        Leads->>= (Leads-reads (λ s. returns (get_table_node s.table)) (λ s p. p.1)) (λ node.
          Leads->>= (Leads-reads (λ s. make_find_node h.boost transaction node node) (λ s p. p.1))
            (λ query.
              Leads->>= (register_callback-Leads h collect_nodes transaction none)
                (λ u. send_message-Keeps query endpoint))))

    -- `doPing` too.
    pub do_ping-Keeps : (h : Host) (n : Node) → Keeps (IsSteady own r t) (do_ping h n)
    unfolding do_ping
    do_ping-Keeps h n =
        Leads->>= (Leads-reads (λ s. endpoint_of n.endpoint) (λ s p. p)) (λ endpoint.
          Leads->>= new_transaction-Leads (λ transaction.
            Leads->>= (Leads-reads (λ s. returns (get_table_node s.table)) (λ s p. p.1)) (λ node.
              Leads->>= (Leads-reads (λ s. make_ping h.boost transaction node) (λ s p. p.1))
                (λ query.
                  Leads->>= (register_callback-Leads h mark_good transaction (some n.id))
                    (λ u. send_message-Keeps query endpoint)))))

    contact_first-Keeps :
        (h : Host) (addresses : List Endpoint) (others : Handler (Unit {0}))
        → Keeps (IsSteady own r t) others
        → Keeps (IsSteady own r t) (contact_first h addresses others)
    unfolding contact_first
    contact_first-Keeps h [] others k = record { holds = λ s p. p }
    contact_first-Keeps h (a ∷ rest) others k =
        Leads->>= (addresses-Keeps (λ s. rest)) (λ u. Leads->>= (contact-Keeps h a) (λ v. k))

    contact_batch-Keeps :
        (h : Host) (rounds : ℕ) → Keeps (IsSteady own r t) (contact_batch h rounds)
    unfolding contact_batch
    contact_batch-Keeps h zero = record { holds = λ s p. p }
    contact_batch-Keeps h (suc rounds) =
        Leads->>= (Leads-reads (λ s. returns s.initial_addresses) (λ s p. p)) (λ addresses.
          contact_first-Keeps h addresses (contact_batch h rounds) (contact_batch-Keeps h rounds))

    bootstrap-Keeps : (h : Host) → Keeps (IsSteady own r t) (bootstrap h)
    unfolding bootstrap
    bootstrap-Keeps h = addresses-Keeps _

  -- A timer that ends is always started again, since no close node is ever counted.
  pub on_timer-Leads :
      (h : Host) (error : Bool)
      → Leads (IsSteady own r 1) (on_timer h error) (λ u. IsSteady own r 1) (IsSteady own r 0)
  unfolding on_timer
  on_timer-Leads h error =
      Leads->>= (Leads-modify (λ s. record s { timers = s.timers - 1 }) taken)
        (λ u. Leads-if error initialize_table started (initialize_table-Leads 0) contacted)
    where
      ending : ℕ → Handler (Unit {0})
      ending close =
          if ltb close dht_close_enough
          then initialize_table
          else modify (λ s. record s { initial_addresses = [] })

      started : Handler (Unit {0})
      started = bootstrap h >>= λ _. contact_batch h initialize_ping_batch_size >>= λ _.
          gets (λ s. s.close_nodes_count) >>= ending

      taken :
          (s : RoutingTable)
          → IsSteady own r 1 s
          → IsSteady own r 0 (record s { timers = s.timers - 1 })
      taken s p = timers-IsSteady (s.timers - 1) s p (omega (arith, p.waking))

      ended : (close : ℕ) → close ≡ 0 → ltb close dht_close_enough ≡ true
      ended close e = ground arith

      restarted :
          Leads
            (IsSteady own r 0)
            (gets (λ s. s.close_nodes_count) >>= ending)
            (λ u. IsSteady own r 1)
            (IsSteady own r 0)
      restarted = record {
        holds = λ s p.
            rw (ended s.close_nodes_count p.no_close)
              ((initialize_table-Leads 0 {E = IsSteady own r 0}).holds s p);
      }

      contacted : Leads (IsSteady own r 0) started (λ u. IsSteady own r 1) (IsSteady own r 0)
      contacted =
          Leads->>= (bootstrap-Keeps 0 h)
            (λ u. Leads->>= (contact_batch-Keeps 0 h initialize_ping_batch_size) (λ v. restarted))
