-- ===== src/RoutingTable/Soundness.antt =====
-- What holds of the routing table whenever the I/O service may call a handler.
pub mod Keys
pub mod Parts
pub mod Receiving
pub mod Starting
pub mod Events
use torrent_sync.Common.{ℕ, ◌≡◌, ◌≤◌, ◌<◌, ◌^◌, List, length, All, Bool, true}
use torrent_sync.NodeData.{NodeData}
use torrent_sync.NodeData.Codec.{Buffer}
use torrent_sync.NodeTree.{make_tree}
use torrent_sync.Callback.{Callback}
use torrent_sync.RoutingTable.{RoutingTable}

-- A callback is registered under its transaction, of two bytes.
abbrev pub IsEntry : Buffer × Callback → Type 0
IsEntry x = (length x.0 ≡ 2) × (x.1.transaction_id ≡ x.0)

-- The tree is still the constructor's, every packet under way is counted, and the handlers under
-- way are `receives` receives and `timers` timers.
pub record IsSteady (own : NodeData) (receives timers : ℕ) (s : RoutingTable) : Type 0 where
  pub tree : s.table ≡ make_tree own
  pub entries : All IsEntry s.callbacks
  pub counted : s.send_queue_counter ≡ length s.sending
  pub bounded : length s.sending ≤ 100
  pub no_close : s.close_nodes_count ≡ 0
  pub sixteen_bits : s.transaction_id < 2 ^ 16
  pub listening : s.receives ≡ receives
  pub waking : s.timers ≡ timers
