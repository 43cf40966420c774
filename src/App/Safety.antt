-- ===== src/App/Safety.antt =====
-- What holds of every state that the application reaches.
use torrent_sync.Common.{ℕ, ◌≡◌, Bool, true, false, Outcome, returns, throws, aborts, undefined}
use torrent_sync.NodeData.{NodeData}
use torrent_sync.RoutingTable.{RoutingTable, Host, make_table}
use torrent_sync.RoutingTable.Starting.{initialize_network}
use torrent_sync.RoutingTable.Triples.{Ended}
use torrent_sync.RoutingTable.Soundness.{IsSteady}
use torrent_sync.RoutingTable.Soundness.Events.{handle_event-IsSteady, initialize_network-IsSteady}
use torrent_sync.App.{
  App, runs, signalled, on_signal, started, make_app, any_endpoint, IsReachable, constructed, next,
}

make_app-IsSteady :
    (h : Host) (own : NodeData) (random : ℕ) {a : App}
    → make_app h own random ≡ returns a
    → IsSteady own 1 1 a.table
unfolding make_app started
make_app-IsSteady h own random e =
    at (initialize_network h any_endpoint (make_table own random))
      (initialize_network-IsSteady own h random any_endpoint) e
  where
    at :
        (r : Outcome (Unit {0}) × RoutingTable) {a : App}
        → Ended (λ u. IsSteady own 1 1) (λ s. Unit {0}) r
        → started r ≡ returns a
        → IsSteady own 1 1 a.table
    at (returns u, s) {a = a} p e = subst_table (app_of e) p
      where
        app_of :
            returns (record { table = s; signals = 1; stopped = false }) ≡ returns a → a.table ≡ s
        app_of e = cc

        subst_table : a.table ≡ s → IsSteady own 1 1 s → IsSteady own 1 1 a.table
        subst_table e p = rw e p
    at (throws x, s) p e = cc
    at (aborts, s) p e = cc
    at (undefined, s) p e = cc

on_signal-IsSteady :
    (own : NodeData) (error : Bool) (a : App)
    → IsSteady own 1 1 a.table
    → IsSteady own 1 1 (on_signal error a).table
unfolding on_signal
on_signal-IsSteady own true a p = p
on_signal-IsSteady own false a p = p

-- Every state that the application reaches is steady: the tree of nodes is still the constructor's,
-- every callback stands under its transaction of two bytes, the send queue counter is the number of
-- the packets under way and at most 100, no close node is counted, and exactly one receive and one
-- timer are under way.
pub reachable-IsSteady : (own : NodeData) (a : App) → IsReachable own a → IsSteady own 1 1 a.table
reachable-IsSteady own a (constructed h random _ e) = make_app-IsSteady h own random e
reachable-IsSteady own _ (next {a = a} r (runs h event after on pending e)) =
    handle_event-IsSteady own h event a.table after pending e (reachable-IsSteady own a r)
reachable-IsSteady own _ (next {a = a} r (signalled error on waits)) =
    on_signal-IsSteady own error a (reachable-IsSteady own a r)
