-- ===== src/RoutingTable/Sending.antt =====
-- `sendMessage` of torrentsync/dht/RoutingTable.cpp, and the handler of what is sent.
use torrent_sync.Common.{ℕ, zero, suc, ◌+◌, ◌-◌, ◌%◌, ◌^◌, ltb, if◌then◌else◌, List, [], ◌∷◌, ◌++◌}
use torrent_sync.NodeData.Codec.{Buffer}
use torrent_sync.Node.{Endpoint}
use torrent_sync.RoutingTable.{RoutingTable, Handler, gets, modify, ◌>>=◌, ◌>>◌}

abbrev pub max_send_queue : ℕ
max_send_queue = 100

-- `fetch_add(1)` and `--` on an atomic `size_t`.
unfoldable pub count_up : RoutingTable → RoutingTable
count_up s = record s { send_queue_counter = (s.send_queue_counter + 1) % 2 ^ 64 }

unfoldable pub count_down : RoutingTable → RoutingTable
count_down s = record s { send_queue_counter = (s.send_queue_counter + (2 ^ 64 - 1)) % 2 ^ 64 }

-- `async_send_to`.
unfoldable pub start_send : Buffer → Endpoint → RoutingTable → RoutingTable
start_send buff addr s = record s { sending = s.sending ++ (buff, addr) ∷ [] }

-- A message is handed to the socket, or dropped when too many are on their way.
unfoldable pub send_message : Buffer → Endpoint → Handler (Unit {0})
unfolding count_up count_down start_send
send_message buff addr = do
  count ← gets (λ s. s.send_queue_counter)
  modify count_up
  if ltb count max_send_queue then modify (start_send buff addr) else modify count_down

-- The packets without the one at a position.
unfoldable pub remove_at : {A : Type 0} → ℕ → List A → List A
remove_at i [] = []
remove_at zero (x ∷ xs) = xs
remove_at (suc i) (x ∷ xs) = x ∷ remove_at i xs

-- The handler that the socket calls when the packet at a position is sent, or has failed.
unfoldable pub finish_send : ℕ → Handler (Unit {0})
unfolding count_down remove_at
finish_send i = do modify (λ s. record s { sending = remove_at i s.sending }); modify count_down
