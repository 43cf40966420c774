-- ===== src/NodeData/Split.antt =====
-- `NodeData::splitInHalf` of torrentsync/dht/NodeData.cpp.
pub mod Range
mod Masks
mod Words
pub mod Halves
use torrent_sync.Common.{
  ℕ, ◌+◌, ◌-◌, ◌*◌, ◌/◌, ◌%◌, ◌^◌, ◌≡◌, refl, Bool, ◌&&◌, ◌==◌, if◌then◌else◌, bit_and, bit_or,
  bit_xor, Option, none, some,
}
use torrent_sync.NodeData.{NodeData}

-- `~` on a word of `w` bits.
abbrev pub complement : ℕ → ℕ → ℕ
complement w x = 2 ^ w - 1 - x

-- The ones of the mask are the bits that the two bounds share.
unfoldable pub common_mask : NodeData → NodeData → NodeData
common_mask low high = record {
  p1 = complement 64 (bit_xor low.p1 high.p1);
  p2 = complement 64 (bit_xor low.p2 high.p2);
  p3 = complement 32 (bit_xor low.p3 high.p3);
}

-- The bit to add to the mask: the mask moved by one, the lost bits carried over, less the mask.
unfoldable pub new_bit : NodeData → NodeData
new_bit mask =
    let p2_first_bit = bit_and mask.p2 1 in
    let p1_first_bit = bit_and mask.p1 1 in
    record {
      p1 = bit_xor (bit_or (mask.p1 / 2) 0x8000000000000000) mask.p1;
      p2 =
          bit_xor (bit_or (mask.p2 / 2 ^ p1_first_bit) (0x8000000000000000 * p1_first_bit)) mask.p2;
      p3 = bit_xor (bit_or (mask.p3 / 2 ^ p2_first_bit) (0x80000000 * p2_first_bit)) mask.p3;
    }

-- The test reads `p3` twice and never `p1`, as the source does.
unfoldable pub is_full : NodeData → Bool
is_full mask =
    complement 32 mask.p3 == 0 && (complement 64 mask.p2 == 0 && complement 32 mask.p3 == 0)

-- `none` is an empty `MaybeBounds`; a pair holds the upper end of the lower half and the lower
-- end of the upper half.
unfoldable pub split_in_half : NodeData → NodeData → Option (NodeData × NodeData)
split_in_half low high =
    let mask = common_mask low high in
    let bit = new_bit mask in
    let half_low : NodeData = record {
      p1 = bit_or low.p1 (complement 64 (bit_or mask.p1 bit.p1));
      p2 = bit_or low.p2 (complement 64 (bit_or mask.p2 bit.p2));
      p3 = bit_or low.p3 (complement 32 (bit_or mask.p3 bit.p3));
    } in
    let half_high : NodeData = record {
      p1 = bit_and high.p1 (bit_or mask.p1 bit.p1);
      p2 = bit_and high.p2 (bit_or mask.p2 bit.p2);
      p3 = bit_and high.p3 (bit_or mask.p3 bit.p3);
    } in
    if is_full mask then none else some (half_low, half_high)
