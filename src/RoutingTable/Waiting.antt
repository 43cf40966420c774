-- ===== src/RoutingTable/Waiting.antt =====
-- `registerCallback` and `getCallback` of torrentsync/dht/RoutingTable.cpp.
pub mod Taking
use torrent_sync.Common.{
  ℕ, Bool, true, false, ◌&&◌, not, if◌then◌else◌, Option, none, some, List, [], ◌∷◌, Outcome,
  returns,
}
use torrent_sync.Common
use torrent_sync.NodeData.{NodeData}
use torrent_sync.NodeData.Codec.{Buffer, Endian}
use torrent_sync.Bencode.Encoder.{lexicographical_compare}
use torrent_sync.Message.{Message, get_id}
use torrent_sync.Callback.{Action, Callback, make_callback, verify_constraints}
use torrent_sync.RoutingTable.{RoutingTable, Host, Handler, gets, modify, lift, done, ◌>>=◌, ◌>>◌}

abbrev pub Waiting : Type 0
Waiting = List (Buffer × Callback)

-- `std::multimap::insert`: behind the entries whose keys are not greater.
unfoldable pub insert_callback : Buffer → Callback → Waiting → Waiting
unfolding lexicographical_compare
insert_callback key c [] = (key, c) ∷ []
insert_callback key c (x ∷ xs) =
    if lexicographical_compare key x.0 then (key, c) ∷ x ∷ xs else x ∷ insert_callback key c xs

unfoldable pub register_callback : Host → Action → Buffer → Option NodeData → Handler (Unit {0})
unfolding insert_callback make_callback
register_callback h action transaction_id source = modify (λ s. record s {
  callbacks =
      insert_callback transaction_id (make_callback h.now action source transaction_id) s.callbacks;
})

-- The keys that `equal_range` holds equal.
unfoldable pub equivalent : Buffer → Buffer → Bool
unfolding lexicographical_compare
equivalent a b = not (lexicographical_compare a b) && not (lexicographical_compare b a)

-- The loop over the range of a key: the first callback whose constraints the message meets, and
-- the map without it.
unfoldable pub take_callback :
    Endian → Message → Buffer → Waiting → Outcome (Option Callback × Waiting)
unfolding equivalent verify_constraints
take_callback e m key [] = returns (none, [])
take_callback e m key (x ∷ xs) =
    let rest = Common.◌>>=◌ (take_callback e m key xs) (λ r. returns (r.0, x ∷ r.1)) in
    if equivalent key x.0
    then (Common.◌>>=◌ (verify_constraints e x.1 m)
        (λ ok. if ok then returns (some x.1, xs) else rest))
    else rest

unfoldable pub get_callback : Host → Message → Handler (Option Callback)
unfolding take_callback
get_callback h m = do
  key ← lift (get_id m)
  waiting ← gets (λ s. s.callbacks)
  (found, left) ← lift (take_callback h.endian m key waiting)
  modify (λ s. record s { callbacks = left })
  done found
