-- ===== src/RoutingTable/Soundness/Keys.antt =====
-- The keys of the callbacks: two bytes that no identifier of twenty bytes is equal to.
use torrent_sync.Common.{
  ap, suc, ◌≡◌, ◌≢◌, refl, true, false, [], ◌∷◌, length, All, none, returns, arith, inl, inr,
  Bool-cases,
}
use torrent_sync.NodeData.{NodeData}
use torrent_sync.NodeData.Codec.{Buffer, Endian, from_buffer}
use torrent_sync.Bencode.Encoder.{lexicographical_compare}
use torrent_sync.Message.{Message}
use torrent_sync.Callback.{Callback}
use torrent_sync.RoutingTable.Waiting.{Waiting, equivalent, insert_callback, take_callback}
use torrent_sync.RoutingTable.Soundness.{IsEntry}

-- Keys that the map holds equal have the same length.
length-equivalent : (a b : Buffer) → equivalent a b ≡ true → length a ≡ length b
unfolding equivalent lexicographical_compare
length-equivalent [] [] e = refl
length-equivalent [] (y ∷ b) e = cc
length-equivalent (x ∷ a) [] e = cc
length-equivalent (x ∷ a) (y ∷ b) e = ap suc (length-equivalent a b (ground arith))

-- Under a key of another length nothing is found, and the map stays as it is.
pub take_callback_miss :
    (e : Endian) (m : Message) (key : Buffer) (w : Waiting)
    → length key ≢ 2
    → All IsEntry w
    → take_callback e m key w ≡ returns (none, w)
unfolding take_callback
take_callback_miss e m key [] other h = refl
take_callback_miss e m key (x ∷ xs) other h =
    let differs : equivalent key x.0 ≡ false = elim (Bool-cases (equivalent key x.0)) [
      | inl same ↦ absurd (other (omega (arith, length-equivalent key x.0 same, h.0.0)))
      | inr same ↦ same
    ] in
    rw (differs, take_callback_miss e m key xs other h.1) refl

pub insert_callback-All :
    (key : Buffer) (c : Callback) (w : Waiting)
    → IsEntry (key, c)
    → All IsEntry w
    → All IsEntry (insert_callback key c w)
unfolding insert_callback
insert_callback-All key c [] new h = (new, tt)
insert_callback-All key c (x ∷ xs) new h = elim (Bool-cases (lexicographical_compare key x.0)) [
  | inl e ↦ rw e (new, h)
  | inr e ↦ rw e (h.0, insert_callback-All key c xs new h.1)
]

-- Bytes that are made an identifier are twenty.
pub from_buffer-length :
    (e : Endian) (bs : Buffer) {d : NodeData} → from_buffer e bs ≡ returns d → length bs ≡ 20
unfolding from_buffer
from_buffer-length e bs h = ground arith
