-- ===== src/NodeData/Codec/Constructor.antt =====
-- The constructor from a buffer, against `read`, on hosts of either byte order.
use torrent_sync.Common.{
  if◌then◌else◌, ◌==◌, inl, inr, Bool-cases, ◌∙◌, ap, sym, ℕ, ◌+◌, ◌*◌, ◌%◌, ◌^◌, ◌<◌, ◌≡◌, refl,
  [], ◌∷◌, length, bit_or, arith, returns, throws, invalid_argument,
}
use torrent_sync.Common.Bits.{bit_or_fields}
use torrent_sync.NodeData.{NodeData_ext}
use torrent_sync.NodeData.Codec.{
  Buffer, Endian, little, big, load32, htonl, from_buffer, read, byte_at,
}
use torrent_sync.NodeData.Codec.BigEndian.{IsBytes}
use torrent_sync.NodeData.Codec.RoundTrip.{read_lem, parsed}

abbrev word : ℕ → ℕ → ℕ → ℕ → ℕ
word a b c d = a * 2 ^ 24 + (b * 2 ^ 16 + (c * 2 ^ 8 + d))

-- Whatever the byte order, `htonl` of a loaded word is the big-endian number.
htonl-load32 :
    (e : Endian) (bs : Buffer) (i : ℕ)
    → byte_at bs (4 * i) < 256
    → byte_at bs (4 * i + 1) < 256
    → byte_at bs (4 * i + 2) < 256
    → byte_at bs (4 * i + 3) < 256
    → htonl e (load32 e bs i)
      ≡ word
          (byte_at bs (4 * i))
          (byte_at bs (4 * i + 1))
          (byte_at bs (4 * i + 2))
          (byte_at bs (4 * i + 3))
unfolding htonl load32
htonl-load32 little bs i h0 h1 h2 h3 = omega arith
htonl-load32 big bs i h0 h1 h2 h3 = refl

or_words : (x y : ℕ) → x < 2 ^ 32 → y < 2 ^ 32 → bit_or (x * 2 ^ 32 % 2 ^ 64) y ≡ x * 2 ^ 32 + y
or_words x y hx hy =
    let e : x * 2 ^ 32 % 2 ^ 64 ≡ x * 2 ^ 32 = omega arith in rw e (bit_or_fields 32 x y hy)

from_buffer_twenty :
    (e : Endian) (bs : Buffer)
    → length bs ≡ 20
    → IsBytes bs
    → from_buffer e bs ≡ returns (parsed bs)
unfolding from_buffer
from_buffer_twenty e
      (a0 ∷ a1 ∷ a2 ∷ a3 ∷ a4 ∷ a5 ∷ a6 ∷ a7 ∷ a8 ∷ a9 ∷ b0 ∷ b1 ∷ b2 ∷ b3 ∷ b4 ∷ b5 ∷ b6 ∷ b7 ∷ b8
        ∷ b9 ∷ [])
      l h =
    rw
      (
        htonl-load32 e bs 0 (omega arith) (omega arith) (omega arith) (omega arith),
        htonl-load32 e bs 1 (omega arith) (omega arith) (omega arith) (omega arith),
        htonl-load32 e bs 2 (omega arith) (omega arith) (omega arith) (omega arith),
        htonl-load32 e bs 3 (omega arith) (omega arith) (omega arith) (omega arith),
        htonl-load32 e bs 4 (omega arith) (omega arith) (omega arith) (omega arith),
        or_words (word a0 a1 a2 a3) (word a4 a5 a6 a7) (omega arith) (omega arith),
        or_words (word a8 a9 b0 b1) (word b2 b3 b4 b5) (omega arith) (omega arith),
      )
      (ap returns (NodeData_ext (omega arith) (omega arith) (omega arith)))
  where
    bs : Buffer
    bs =
        a0 ∷ a1 ∷ a2 ∷ a3 ∷ a4 ∷ a5 ∷ a6 ∷ a7 ∷ a8 ∷ a9 ∷ b0 ∷ b1 ∷ b2 ∷ b3 ∷ b4 ∷ b5 ∷ b6 ∷ b7 ∷ b8
        ∷ b9 ∷ []
from_buffer_twenty e bs l h = absurd (omega arith)

-- On every host the constructor takes exactly the buffers of twenty bytes, and reads in them
-- what `read` reads; it throws at any other size.
pub from_buffer-read :
    (e : Endian) (bs : Buffer)
    → IsBytes bs
    → from_buffer e bs ≡ (if length bs == 20 then read bs else throws invalid_argument)
from_buffer-read e bs h = elim (Bool-cases (length bs == 20)) [
  | inl l ↦
      let twenty : length bs ≡ 20 = ground arith in
      rw l (from_buffer_twenty e bs twenty h ∙ sym (read_lem bs (omega (arith, twenty)) h))
  | inr l ↦ rw l (unfold from_buffer in ground arith)
]
