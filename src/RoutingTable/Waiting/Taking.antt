-- ===== src/RoutingTable/Waiting/Taking.antt =====
-- `getCallback` on callbacks of any keys: which one it takes.
use torrent_sync.Common.{◌≡◌, true, Option, none, some, ◌∷◌, ◌++◌, All, Outcome, returns}
use torrent_sync.NodeData.{NodeData}
use torrent_sync.NodeData.Codec.{Buffer}
use torrent_sync.Message.{Message}
use torrent_sync.Callback.{Callback}
use torrent_sync.Callback.Constraints.{IsFrom}
use torrent_sync.RoutingTable.Waiting.{Waiting, equivalent}

-- The entry has the key, and its callback waits for the node and the transaction.
abbrev pub Fits : Buffer → NodeData → Buffer → Buffer × Callback → Type 0
Fits key sender tid x =
    (equivalent key x.0 ≡ true) × IsFrom x.1.source sender × (x.1.transaction_id ≡ tid)

pub data Taken (key : Buffer) (sender : NodeData) (tid : Buffer) (w : Waiting)
    : Outcome (Option Callback × Waiting) → Type 0 where
  nothing :
      {o : Outcome (Option Callback × Waiting)}
      → o ≡ returns (none, w)
      → All (λ x. ¬ (Fits key sender tid x)) w
      → Taken key sender tid w o
  first :
      {o : Outcome (Option Callback × Waiting)} (before after : Waiting) (x : Buffer × Callback)
      → w ≡ before ++ x ∷ after
      → o ≡ returns (some x.1, before ++ after)
      → All (λ x. ¬ (Fits key sender tid x)) before
      → Fits key sender tid x
      → Taken key sender tid w o
