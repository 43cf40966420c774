-- ===== src/RoutingTable/Transactions.antt =====
-- `newTransaction` of torrentsync/dht/RoutingTable.cpp.
pub mod Distinct
use torrent_sync.Common.{ℕ, ◌+◌, ◌/◌, ◌%◌, ◌^◌, [], ◌∷◌}
use torrent_sync.NodeData.Codec.{Buffer}
use torrent_sync.RoutingTable.{RoutingTable, Handler, gets, modify, done, ◌>>=◌, ◌>>◌}

-- Two `push_back` of a 16-bit number, which keep the low byte of what they are given.
unfoldable pub transaction_bytes : ℕ → Buffer
transaction_bytes v = v % 2 ^ 8 ∷ v / 2 ^ 8 % 2 ^ 8 ∷ []

-- `_transaction_id++` on a `uint16_t`.
unfoldable pub count_transaction : RoutingTable → RoutingTable
count_transaction s = record s { transaction_id = (s.transaction_id + 1) % 2 ^ 16 }

unfoldable pub new_transaction : Handler Buffer
unfolding transaction_bytes count_transaction
new_transaction = do
  v ← gets (λ s. s.transaction_id)
  modify count_transaction
  done (transaction_bytes v)
