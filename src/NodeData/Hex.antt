-- ===== src/NodeData/Hex.antt =====
-- `string` of torrentsync/dht/NodeData.cpp and `parseIDFromHex` of torrentsync/utils/Buffer.cpp: the
-- hexadecimal form of an identifier. `read_hex` is the number that a stream of the standard library
-- reads from a text under `std::hex`.
pub mod RoundTrip
use torrent_sync.Common.{
  ℕ, zero, suc, ◌+◌, ◌*◌, ◌-◌, ◌/◌, ◌%◌, ◌^◌, ltb, ◌==◌, if◌then◌else◌, [], ◌∷◌, ◌++◌, length,
  replicate, Outcome, returns, assert, ◌>>=◌, ◌>>◌,
}
use torrent_sync.NodeData.{NodeData}
use torrent_sync.NodeData.Codec.{Buffer}

abbrev pub hex_digit : ℕ → ℕ
hex_digit n = if ltb n 10 then 48 + n else 87 + n

-- All digits of a number of `k` bytes, two for each byte.
abbrev pub hex_digits : ℕ → ℕ → Buffer
hex_digits zero n = []
hex_digits (suc k) n =
    hex_digit (n / 256 ^ k / 16 % 16) ∷ hex_digit (n / 256 ^ k % 16) ∷ hex_digits k n

-- The digits without the leading zeros, at least one.
unfoldable pub strip : Buffer → Buffer
strip [] = []
strip (x ∷ []) = x ∷ []
strip (x ∷ y ∷ ys) = if x == 48 then strip (y ∷ ys) else x ∷ y ∷ ys

-- `ss.width(…); ss.fill('0'); ss << p`: the numeral with zeros in front up to the width.
unfoldable pub put_number : ℕ → Buffer → Buffer
put_number width numeral = replicate (width - length numeral) 48 ++ numeral

unfoldable pub string : NodeData → Buffer
unfolding put_number strip
string d =
    put_number 16 (strip (hex_digits 8 d.p1))
    ++ (put_number 16 (strip (hex_digits 8 d.p2)) ++ put_number 8 (strip (hex_digits 4 d.p3)))

-- The loop: each two characters are read as a number, of which a byte is kept.
unfoldable pub read_pairs : (Buffer → ℕ) → Buffer → Buffer
read_pairs read_hex [] = []
read_pairs read_hex (a ∷ []) = read_hex (a ∷ []) % 2 ^ 8 ∷ []
read_pairs read_hex (a ∷ b ∷ rest) = read_hex (a ∷ b ∷ []) % 2 ^ 8 ∷ read_pairs read_hex rest

unfoldable pub parse_id_from_hex : (Buffer → ℕ) → Buffer → Outcome Buffer
unfolding read_pairs
parse_id_from_hex read_hex str = do assert (length str % 2 == 0); returns (read_pairs read_hex str)
