-- ===== src/NodeData/Tests.antt =====
-- Runs of the identifiers and of their codec, and the theorems at concrete identifiers.
use torrent_sync.Common.{
  ℕ, ltb, ◌-◌, ◌*◌, if◌then◌else◌, ◌==◌, ◌+◌, ◌^◌, ◌≡◌, ◌<◌, ◌↔◌, refl, true, [], ◌∷◌, ◌++◌, take,
  replicate, returns, throws, invalid_argument, length, arith,
}
use torrent_sync.NodeData.Hex.{hex_digit, string, parse_id_from_hex}
use torrent_sync.NodeData.Hex.RoundTrip.{IsHexReader, parse_id_from_hex-string}
use torrent_sync.NodeData.Random.{get_random, get_random-IsNodeData}
use torrent_sync.NodeData.{NodeData, IsNodeData, value, lt, distance}
use torrent_sync.NodeData.Order.{lt_iff}
use torrent_sync.NodeData.Split.Range.{IsRange, in_p1}
use torrent_sync.NodeData.Split.Halves.{Halves, split_in_half-Halves}
use torrent_sync.NodeData.Codec.{Buffer, little, read, write, from_buffer, min_value, max_value}
use torrent_sync.NodeData.Codec.RoundTrip.{read-write, write-read}
use torrent_sync.NodeData.Codec.Constructor.{from_buffer-read}

abbrev an_id : NodeData
an_id = record { p1 = 256; p2 = 7; p3 = 2 ^ 31 }

abbrev another_id : NodeData
another_id = record { p1 = 256; p2 = 7; p3 = 3 }

run_lt : lt another_id an_id ≡ true
unfolding lt
run_lt = refl

run_distance : distance an_id another_id ≡ record { p1 = 0; p2 = 0; p3 = 2 ^ 31 + 3 }
unfolding distance
run_distance = refl

run_write : take 9 (write an_id) ≡ 0 ∷ 0 ∷ 0 ∷ 0 ∷ 0 ∷ 0 ∷ 1 ∷ 0 ∷ 0 ∷ []
unfolding write
run_write = refl

abbrev all_ids : IsRange 160 min_value max_value
all_ids =
    in_p1 0 63 refl (record { leading = 0; fits = omega arith; low_word = refl; high_word = refl })
      refl refl refl refl

split_in_half-Halves_example : Halves 159 min_value max_value
split_in_half-Halves_example = split_in_half-Halves 159 all_ids

read-write_example : read (write an_id ++ 1 ∷ 2 ∷ []) ≡ returns an_id
read-write_example = read-write an_id (1 ∷ 2 ∷ []) (omega arith) (omega arith)

abbrev twenty : Buffer
twenty = replicate 20 1

abbrev ones : NodeData
ones = record { p1 = 72340172838076673; p2 = 72340172838076673; p3 = 16843009 }

write-read_example : write ones ≡ take 20 twenty
write-read_example = write-read twenty {d = ones} (omega arith) (omega arith) (unfold read in refl)

from_buffer-read_example :
    from_buffer little twenty
    ≡ (if length twenty == 20 then read twenty else throws invalid_argument)
from_buffer-read_example = from_buffer-read little twenty (omega arith)

lt_iff_example : (lt another_id an_id ≡ true) ↔ (value another_id < value an_id)
lt_iff_example = lt_iff another_id an_id (omega arith) (omega arith)

-- What the stream reads of two digits.
abbrev digit_value : ℕ → ℕ
digit_value c = if ltb c 58 then c - 48 else c - 87

abbrev read_hex : Buffer → ℕ
read_hex (a ∷ b ∷ []) = digit_value a * 16 + digit_value b
read_hex other = 0

digit_value-hex_digit : (n : ℕ) → n < 16 → digit_value (hex_digit n) ≡ n
digit_value-hex_digit n h = ground arith

read_hex-IsHexReader : IsHexReader read_hex
read_hex-IsHexReader a b ha hb =
    omega (arith, digit_value-hex_digit a ha, digit_value-hex_digit b hb)

parse_id_from_hex-string_example :
    parse_id_from_hex read_hex (string (record { p1 = 1; p2 = 0xABCDEF; p3 = 3 }))
    ≡ returns (write (record { p1 = 1; p2 = 0xABCDEF; p3 = 3 }))
parse_id_from_hex-string_example =
    parse_id_from_hex-string read_hex read_hex-IsHexReader
      (record { p1 = 1; p2 = 0xABCDEF; p3 = 3 })

get_random-IsNodeData_example :
    IsNodeData (get_random (λ i. 5))
    × (other : ℕ → ℕ) × ((i : ℕ) → other i < 2 ^ 32)
    × (get_random other ≡ record { p1 = 1; p2 = 2; p3 = 3 })
get_random-IsNodeData_example =
    get_random-IsNodeData (λ i. 5) (record { p1 = 1; p2 = 2; p3 = 3 }) (λ i. omega arith)
      (omega arith)
