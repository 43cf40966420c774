-- ===== src/RoutingTable/Rounds.antt =====
-- A round of the initialisation of the table, as a whole.
use mathlib.Core.List.{Perm, perm_middle, append_assoc, append-nil}
use mathlib.Core.List.Perm
use torrent_sync.Common.{
  ap, sym, subst, ◌∙◌, ℕ, zero, suc, ◌≡◌, refl, ◌+◌, ◌-◌, ◌≤◌, ◌<◌, ◌%◌, ◌^◌, true, false, ltb,
  List, [], ◌∷◌, ◌++◌, length, length-append, take, drop, none, Outcome, returns, arith,
  if◌then◌else◌, inl, inr, Bool-cases,
}
use torrent_sync.NodeData.{NodeData}
use torrent_sync.NodeData.Codec.{Buffer}
use torrent_sync.Node.{Endpoint}
use torrent_sync.NodeTree.{NodeTree, get_table_node, make_tree, clear}
use torrent_sync.Bencode.Boost.{Boost, IsBoost}
use torrent_sync.Bencode.Encoder.{lexicographical_compare}
use torrent_sync.Message.Shape.{message_bytes}
use torrent_sync.Message.Text.{field_arguments, messages_find_node}
use torrent_sync.Message.Query.{make_find_node}
use torrent_sync.Message.Query.RoundTrip.{
  find_node_arguments, query_fields, make_find_node-message_bytes,
}
use torrent_sync.Callback.{Callback, collect_nodes, make_callback}
use torrent_sync.RoutingTable.{RoutingTable, Host, Handler, carry_on, gets, modify, ◌>>=◌}
use torrent_sync.RoutingTable.Transactions.{transaction_bytes, count_transaction, new_transaction}
use torrent_sync.RoutingTable.Sending.{send_message, count_up, start_send}
use torrent_sync.RoutingTable.Waiting.{Waiting, insert_callback, register_callback}
use torrent_sync.RoutingTable.Starting.{
  dht_close_enough, contact, contact_first, contact_batch, bootstrap, bootstrap_from,
  initialize_table, on_timer,
}
use torrent_sync.RoutingTable.Triples.{Ended}
use torrent_sync.RoutingTable.Soundness.{IsSteady}
use torrent_sync.RoutingTable.Soundness.Starting.{timers-IsSteady, contact-Keeps, addresses-Keeps}

-- The find_node query of the table for its own identifier, in the transaction of a number.
abbrev pub query_bytes : Boost → NodeData → ℕ → Buffer
query_bytes boost own k =
    message_bytes boost field_arguments (find_node_arguments own own)
      (query_fields messages_find_node (transaction_bytes k))

-- One query for each address, in transactions that follow each other.
abbrev pub queries : Boost → NodeData → ℕ → List Endpoint → List (Buffer × Endpoint)
queries boost own k [] = []
queries boost own k (a ∷ rest) =
    (query_bytes boost own k, a) ∷ queries boost own ((k + 1) % 2 ^ 16) rest

-- Their callbacks, which take no account of the sender.
abbrev pub new_entries : Host → ℕ → List Endpoint → Waiting
new_entries h k [] = []
new_entries h k (a ∷ rest) =
    (transaction_bytes k, make_callback h.now collect_nodes none (transaction_bytes k))
    ∷ new_entries h ((k + 1) % 2 ^ 16) rest

-- The state after the first `n` of the addresses are contacted.
pub record Contacted (h : Host) (own : NodeData) (r t n : ℕ) (addresses : List Endpoint)
    (s : RoutingTable) (o : Outcome (Unit {0}) × RoutingTable) : Type 0 where
  pub after : RoutingTable
  pub returned : o ≡ (returns tt, after)
  pub remaining : after.initial_addresses ≡ drop n addresses
  pub packets : after.sending ≡ s.sending ++ queries h.boost own s.transaction_id (take n addresses)
  pub registered :
      Perm after.callbacks (new_entries h s.transaction_id (take n addresses) ++ s.callbacks)
  pub steady : IsSteady own r t after

insert_callback-perm :
    (key : Buffer) (c : Callback) (w : Waiting) → Perm (insert_callback key c w) ((key, c) ∷ w)
unfolding insert_callback
insert_callback-perm key c [] = Perm.refl ((key, c) ∷ [])
insert_callback-perm key c (x ∷ w) = elim (Bool-cases (lexicographical_compare key x.0)) [
  | inl e ↦ rw e (Perm.refl ((key, c) ∷ x ∷ w))
  | inr e ↦ rw e (Perm.trans (Perm.cons x (insert_callback-perm key c w)) (Perm.swap (key, c) x w))
]

-- The state after one address is contacted.
abbrev contacted : Host → NodeData → Endpoint → RoutingTable → RoutingTable
contacted h own a s = start_send (query_bytes h.boost own s.transaction_id) a (
    count_up (record (count_transaction s) {
      callbacks =
          insert_callback (transaction_bytes s.transaction_id)
            (make_callback h.now collect_nodes none (transaction_bytes s.transaction_id))
            s.callbacks;
    }))

module _ (h : Host) (b : IsBoost h.boost) (own : NodeData) {r t : ℕ} where
  contact-eq :
      (a : Endpoint) (s : RoutingTable)
      → IsSteady own r t s
      → length s.sending < 100
      → contact h a s ≡ (returns tt, contacted h own a s)
  unfolding contact new_transaction register_callback send_message get_table_node
  contact-eq a s p room = rw (made, free) refl
    where
      own_node : s.table.node ≡ own
      own_node = ap (λ (tree : NodeTree). tree.node) p.tree ∙ (unfold make_tree clear in refl)

      made :
          make_find_node h.boost (transaction_bytes s.transaction_id) s.table.node s.table.node
          ≡ returns (query_bytes h.boost own s.transaction_id)
      made =
          subst
            (λ d.
              make_find_node h.boost (transaction_bytes s.transaction_id) d d
              ≡ returns (query_bytes h.boost own s.transaction_id))
            (sym own_node)
            (make_find_node-message_bytes h.boost b (transaction_bytes s.transaction_id)
              (unfold transaction_bytes in (refl, omega arith)) own own)

      free : ltb s.send_queue_counter 100 ≡ true
      free = counts s.send_queue_counter (omega (arith, room, p.counted))
        where
          counts : (n : ℕ) → n < 100 → ltb n 100 ≡ true
          counts n less = ground arith

  contact_batch-Contacted :
      (n : ℕ) (addresses : List Endpoint) (s : RoutingTable)
      → s.initial_addresses ≡ addresses
      → IsSteady own r t s
      → length s.sending + n ≤ 100
      → Contacted h own r t n addresses s (contact_batch h n s)
  unfolding contact_batch contact_first start_send count_up count_transaction
  contact_batch-Contacted zero addresses s e p room = record {
    after = s;
    returned = refl;
    remaining = e;
    packets = sym (append-nil s.sending);
    registered = Perm.refl s.callbacks;
    steady = p;
  }
  contact_batch-Contacted (suc n) [] s e p room = record {
    after = s;
    returned = ap (λ ends. contact_first h ends (contact_batch h n) s) e;
    remaining = e;
    packets = sym (append-nil s.sending);
    registered = Perm.refl s.callbacks;
    steady = p;
  }
  contact_batch-Contacted (suc n) (a ∷ rest) s e p room =
      let s1 : RoutingTable = record s { initial_addresses = rest } in
      let p1 : IsSteady own r t s1 = (addresses-Keeps own r t (λ s. rest)).holds s p in
      let sent = contact-eq a s1 p1 (omega (arith, room)) in
      let s2 : RoutingTable = contacted h own a s1 in
      let p2 : IsSteady own r t s2 =
        subst (Ended (λ u. IsSteady own r t) (IsSteady own r t)) sent
          ((contact-Keeps own r t h a).holds s1 p1) in
      let one : Buffer × Endpoint = (query_bytes h.boost own s.transaction_id, a) in
      let key : Buffer = transaction_bytes s.transaction_id in
      let c : Callback = make_callback h.now collect_nodes none key in
      let later : Waiting = new_entries h ((s.transaction_id + 1) % 2 ^ 16) (take n rest) in
      let i = contact_batch-Contacted n rest s2 refl p2 (more n s.sending one room) in
      record {
        after = i.after;
        returned =
            ap (λ ends. contact_first h ends (contact_batch h n) s) e
            ∙ ap (λ x. carry_on x (λ _. contact_batch h n)) sent
            ∙ i.returned;
        remaining = i.remaining;
        packets =
            i.packets
            ∙ append_assoc s.sending (one ∷ [])
                (queries h.boost own ((s.transaction_id + 1) % 2 ^ 16) (take n rest));
        registered = Perm.trans i.registered (
            Perm.trans (Perm.append_left later (insert_callback-perm key c s.callbacks))
              (perm_middle later s.callbacks));
        steady = i.steady;
      }
    where
      more :
          (n : ℕ) (xs : List (Buffer × Endpoint)) (x : Buffer × Endpoint)
          → length xs + suc n ≤ 100
          → length (xs ++ x ∷ []) + n ≤ 100
      more n xs x h = omega (arith, h, length-append xs (x ∷ []))

-- A round of the timer, while the send queue has room for five packets, contacts the first five of
-- the addresses, of which the resolver gives more when none are left: each is sent a find_node
-- query for the table's own identifier, in transactions that follow each other, under which the
-- callbacks are registered; the other addresses remain, and the timer is started again.
pub on_timer-Contacted :
    (h : Host) (own : NodeData) {r : ℕ} (s : RoutingTable)
    → IsBoost h.boost
    → IsSteady own r 1 s
    → length s.sending + 5 ≤ 100
    → Contacted h own r 1 5 (bootstrap_from h s.initial_addresses) s (on_timer h false s)
unfolding on_timer bootstrap initialize_table
on_timer-Contacted h own {r = r} s b p room = record {
  after = record i.after { timers = i.after.timers + 1 };
  returned =
      ap (λ x. carry_on x ending) i.returned
      ∙ restarted i.after.close_nodes_count i.steady.no_close;
  remaining = i.remaining;
  packets = i.packets;
  registered = i.registered;
  steady =
      timers-IsSteady own r (i.after.timers + 1) i.after i.steady (omega (arith, i.steady.waking));
}
  where
    s1 : RoutingTable
    s1 = record s { timers = s.timers - 1 }

    p1 : IsSteady own r 0 s1
    p1 = timers-IsSteady own r (s.timers - 1) s p (omega (arith, p.waking))

    s2 : RoutingTable
    s2 = record s1 { initial_addresses = bootstrap_from h s.initial_addresses }

    i : Contacted h own r 0 5 (bootstrap_from h s.initial_addresses) s2 (contact_batch h 5 s2)
    i =
        contact_batch-Contacted h b own 5 (bootstrap_from h s.initial_addresses) s2 refl
          ((addresses-Keeps own r 0 (λ s. bootstrap_from h s.initial_addresses)).holds s1 p1) room

    after_close : ℕ → Handler (Unit {0})
    after_close close =
        if ltb close dht_close_enough
        then initialize_table
        else modify (λ s. record s { initial_addresses = [] })

    ending : Unit {0} → Handler (Unit {0})
    ending u = gets (λ s. s.close_nodes_count) >>= after_close

    restarted :
        (close : ℕ)
        → close ≡ 0
        → after_close close i.after ≡ (returns tt, record i.after { timers = i.after.timers + 1 })
    restarted close e = ground arith
