-- ===== src/RoutingTable/Soundness/Parts.antt =====
-- The functions that the handlers call keep the table steady.
use torrent_sync.Common.{
  ℕ, ◌≡◌, ◌≢◌, refl, ◌<◌, true, ltb, [], ◌∷◌, length, length-append, none, Option, returns, arith,
  inl, inr, Bool-cases,
}
use torrent_sync.NodeData.{NodeData}
use torrent_sync.NodeData.Codec.{Buffer}
use torrent_sync.Node.{Endpoint}
use torrent_sync.Message.{Message, get_id}
use torrent_sync.Callback.{Action, make_callback}
use torrent_sync.RoutingTable.{RoutingTable, Host}
use torrent_sync.RoutingTable.Transactions.{transaction_bytes, count_transaction, new_transaction}
use torrent_sync.RoutingTable.Sending.{count_up, count_down, start_send, send_message}
use torrent_sync.RoutingTable.Waiting.{register_callback, get_callback}
use torrent_sync.RoutingTable.Triples.{Leads, Keeps}
use torrent_sync.RoutingTable.Soundness.{IsSteady}
use torrent_sync.RoutingTable.Soundness.Keys.{take_callback_miss, insert_callback-All}

module _ {own : NodeData} {r t : ℕ} where
  pub new_transaction-Leads :
      Leads
        (IsSteady own r t)
        new_transaction
        (λ id s. (length id ≡ 2) × IsSteady own r t s)
        (IsSteady own r t)
  unfolding new_transaction transaction_bytes count_transaction
  new_transaction-Leads = record {
    holds = λ s p. (
      refl,
      record {
        tree = p.tree;
        entries = p.entries;
        counted = p.counted;
        bounded = p.bounded;
        no_close = p.no_close;
        sixteen_bits = omega arith;
        listening = p.listening;
        waking = p.waking;
      },
    );
  }

  pub send_message-Keeps :
      (buff : Buffer) (addr : Endpoint) → Keeps (IsSteady own r t) (send_message buff addr)
  unfolding send_message count_up count_down start_send
  send_message-Keeps buff addr = record {
    holds = λ s p. elim (Bool-cases (ltb s.send_queue_counter 100)) [
      | inl e ↦ rw e (record {
        tree = p.tree;
        entries = p.entries;
        counted = omega (arith, p.counted, p.bounded, length-append s.sending ((buff, addr) ∷ []));
        bounded = omega (arith, p.counted, ltb_lt e, length-append s.sending ((buff, addr) ∷ []));
        no_close = p.no_close;
        sixteen_bits = p.sixteen_bits;
        listening = p.listening;
        waking = p.waking;
      })
      | inr e ↦ rw e (record {
        tree = p.tree;
        entries = p.entries;
        counted = omega (arith, p.counted, p.bounded);
        bounded = p.bounded;
        no_close = p.no_close;
        sixteen_bits = p.sixteen_bits;
        listening = p.listening;
        waking = p.waking;
      })
    ];
  }
    where
      ltb_lt : {a b : ℕ} → ltb a b ≡ true → a < b
      ltb_lt e = ground arith

  pub register_callback-Leads :
      (h : Host) (action : Action) (id : Buffer) (source : Option NodeData)
      → Leads
          (λ s. (length id ≡ 2) × IsSteady own r t s)
          (register_callback h action id source)
          (λ u. IsSteady own r t)
          (IsSteady own r t)
  unfolding register_callback make_callback
  register_callback-Leads h action id source = record {
    holds = λ s p. record {
      tree = p.1.tree;
      entries =
          insert_callback-All id (make_callback h.now action source id) s.callbacks (p.0, refl)
            p.1.entries;
      counted = p.1.counted;
      bounded = p.1.bounded;
      no_close = p.1.no_close;
      sixteen_bits = p.1.sixteen_bits;
      listening = p.1.listening;
      waking = p.1.waking;
    };
  }

  -- With an identifier of any length but two no callback is found.
  pub get_callback-eq-none :
      (h : Host) (m : Message) (id : Buffer) (s : RoutingTable)
      → get_id m ≡ returns id
      → length id ≢ 2
      → IsSteady own r t s
      → get_callback h m s ≡ (returns none, s)
  unfolding get_callback
  get_callback-eq-none h m id s known other p =
      rw (known, take_callback_miss h.endian m id s.callbacks other p.entries) refl
