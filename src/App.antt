-- ===== src/App.antt =====
-- torrentsync/App.h and App.cpp: the application, and the steps of the I/O service that it runs.
pub mod Safety
pub mod Answers
pub mod Tests
use torrent_sync.Common.{
  ℕ, ◌≡◌, ◌<◌, Bool, true, false, if◌then◌else◌, Outcome, returns, throws, aborts, undefined,
}
use torrent_sync.NodeData.{NodeData}
use torrent_sync.Node.{Endpoint}
use torrent_sync.RoutingTable.{RoutingTable, Host, make_table}
use torrent_sync.RoutingTable.Starting.{initialize_network}
use torrent_sync.RoutingTable.Events.{Event, IsPending, handle_event}

-- `signals` counts the waits for a signal, and `stopped` tells whether the service has to stop.
pub record App : Type 0 where
  pub table : RoutingTable
  pub signals : ℕ
  pub stopped : Bool

-- `udp::endpoint()`.
abbrev pub any_endpoint : Endpoint
any_endpoint = record { address = 0; port = 0 }

-- What the constructor's call of `initializeNetwork` makes of it.
unfoldable pub started : Outcome (Unit {0}) × RoutingTable → Outcome App
started (returns u, s) = returns (record { table = s; signals = 1; stopped = false })
started (throws e, s) = throws e
started (aborts, s) = aborts
started (undefined, s) = undefined

-- The constructor: it waits for a signal, and initialises the network.
unfoldable pub make_app : Host → NodeData → ℕ → Outcome App
unfolding started make_table initialize_network
make_app h random_node random =
    started (initialize_network h any_endpoint (make_table random_node random))

-- The handler of the signals.
unfoldable pub on_signal : Bool → App → App
on_signal error a =
    if error then record a { signals = 0 } else record a { signals = 0; stopped = true }

-- One handler that the service calls; when it throws or aborts, the program ends.
pub data Step (a : App) : App → Type 0 where
  runs :
      (h : Host) (event : Event) (after : RoutingTable)
      → a.stopped ≡ false
      → IsPending event a.table
      → handle_event h event a.table ≡ (returns tt, after)
      → Step a (record a { table = after })
  signalled : (error : Bool) → a.stopped ≡ false → 0 < a.signals → Step a (on_signal error a)

-- What the application comes to from its constructor on.
pub data IsReachable (own : NodeData) : App → Type 0 where
  constructed :
      (h : Host) (random : ℕ) (a : App) → make_app h own random ≡ returns a → IsReachable own a
  next : {a b : App} → IsReachable own a → Step a b → IsReachable own b
