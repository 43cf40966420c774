-- ===== src/NodeData/Codec.antt =====
-- Identifiers and bytes: the constructor from a buffer, `read` and `write` of
-- torrentsync/dht/NodeData.cpp. A buffer is a list of numbers, its bytes.
pub mod BigEndian
pub mod RoundTrip
pub mod Constructor
use torrent_sync.Common.{
  ℕ, zero, suc, ◌+◌, ◌-◌, ◌*◌, ◌/◌, ◌%◌, ◌^◌, Bool, true, false, if◌then◌else◌, ltb, ◌==◌, bit_and,
  bit_or, List, [], ◌∷◌, length, Outcome, returns, throws, undefined, invalid_argument, ◌>>=◌,
}
use torrent_sync.NodeData.{NodeData}

abbrev pub Buffer : Type 0
Buffer = List ℕ

abbrev pub address_data_length : ℕ
address_data_length = 20

-- The byte order of the host, on which the load of a `uint32_t` and `htonl` both depend.
pub data Endian : Type 0 where
  little big : Endian

abbrev pub byte_at : Buffer → ℕ → ℕ
byte_at [] i = 0
byte_at (b ∷ bs) zero = b
byte_at (b ∷ bs) (suc i) = byte_at bs i

-- `data[i]`, four bytes of the buffer read as one word.
unfoldable pub load32 : Endian → Buffer → ℕ → ℕ
load32 little buff i =
    byte_at buff (4 * i)
    + (byte_at buff (4 * i + 1) * 2 ^ 8
        + (byte_at buff (4 * i + 2) * 2 ^ 16 + byte_at buff (4 * i + 3) * 2 ^ 24))
load32 big buff i =
    byte_at buff (4 * i) * 2 ^ 24
    + (byte_at buff (4 * i + 1) * 2 ^ 16
        + (byte_at buff (4 * i + 2) * 2 ^ 8 + byte_at buff (4 * i + 3)))

-- `htonl` and `ntohl`; likewise `htons` and `ntohs`.
unfoldable pub htonl : Endian → ℕ → ℕ
htonl little x =
    x % 2 ^ 8 * 2 ^ 24
    + (x / 2 ^ 8 % 2 ^ 8 * 2 ^ 16 + (x / 2 ^ 16 % 2 ^ 8 * 2 ^ 8 + x / 2 ^ 24 % 2 ^ 8))
htonl big x = x

unfoldable pub htons : Endian → ℕ → ℕ
htons little x = x % 2 ^ 8 * 2 ^ 8 + x / 2 ^ 8 % 2 ^ 8
htons big x = x

-- `NodeData( const utils::Buffer& )`.
unfoldable pub from_buffer : Endian → Buffer → Outcome NodeData
from_buffer e buff =
    if length buff == address_data_length
    then returns (record {
      p1 = bit_or (htonl e (load32 e buff 0) * 2 ^ 32 % 2 ^ 64) (htonl e (load32 e buff 1));
      p2 = bit_or (htonl e (load32 e buff 2) * 2 ^ 32 % 2 ^ 64) (htonl e (load32 e buff 3));
      p3 = htonl e (load32 e buff 4);
    })
    else throws invalid_argument

-- `n` rounds of `p <<= 8; p |= *(begin++)` on a word of `w` bits.
pub shift_in : ℕ → ℕ → ℕ → Buffer → Outcome (ℕ × Buffer)
shift_in w zero p bs = returns (p, bs)
shift_in w (suc n) p [] = undefined
shift_in w (suc n) p (b ∷ bs) = shift_in w n (bit_or (p * 2 ^ 8 % 2 ^ w) b) bs

-- The three loops of `read`, which move `begin` on.
pub read_words : Buffer → Outcome NodeData
unfolding shift_in
read_words bytes = do
  (p1, rest1) ← shift_in 64 8 0 bytes
  (p2, rest2) ← shift_in 64 8 0 rest1
  (p3, rest3) ← shift_in 32 4 0 rest2
  returns (record { p1 = p1; p2 = p2; p3 = p3 })

-- `NodeData::read` on the bytes from `begin` to `end`.
unfoldable pub read : Buffer → Outcome NodeData
unfolding read_words
read bytes =
    if ltb (length bytes) address_data_length then throws invalid_argument else read_words bytes

-- `NodeData::write`.
unfoldable pub write : NodeData → Buffer
write d =
    bit_and (d.p1 / 2 ^ 56) 0xFF
    ∷ bit_and (d.p1 / 2 ^ 48) 0xFF
    ∷ bit_and (d.p1 / 2 ^ 40) 0xFF
    ∷ bit_and (d.p1 / 2 ^ 32) 0xFF
    ∷ bit_and (d.p1 / 2 ^ 24) 0xFF
    ∷ bit_and (d.p1 / 2 ^ 16) 0xFF
    ∷ bit_and (d.p1 / 2 ^ 8) 0xFF
    ∷ bit_and (d.p1 / 2 ^ 0) 0xFF
    ∷ bit_and (d.p2 / 2 ^ 56) 0xFF
    ∷ bit_and (d.p2 / 2 ^ 48) 0xFF
    ∷ bit_and (d.p2 / 2 ^ 40) 0xFF
    ∷ bit_and (d.p2 / 2 ^ 32) 0xFF
    ∷ bit_and (d.p2 / 2 ^ 24) 0xFF
    ∷ bit_and (d.p2 / 2 ^ 16) 0xFF
    ∷ bit_and (d.p2 / 2 ^ 8) 0xFF
    ∷ bit_and (d.p2 / 2 ^ 0) 0xFF
    ∷ bit_and (d.p3 / 2 ^ 24) 0xFF
    ∷ bit_and (d.p3 / 2 ^ 16) 0xFF
    ∷ bit_and (d.p3 / 2 ^ 8) 0xFF
    ∷ bit_and (d.p3 / 2 ^ 0) 0xFF
    ∷ []

-- `minValue` and `maxValue`, which the source builds from buffers.
abbrev pub min_value : NodeData
min_value = record { p1 = 0; p2 = 0; p3 = 0 }

abbrev pub max_value : NodeData
max_value = record { p1 = 2 ^ 64 - 1; p2 = 2 ^ 64 - 1; p3 = 2 ^ 32 - 1 }
