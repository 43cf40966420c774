-- ===== src/NodeData/Random.antt =====
-- `getRandom` of torrentsync/dht/NodeData.cpp: five draws of the generator, each of 32 bits.
use torrent_sync.Common.{◌∙◌, ℕ, zero, suc, ◌+◌, ◌*◌, ◌/◌, ◌%◌, ◌^◌, ◌<◌, ◌≡◌, refl, bit_or, arith}
use torrent_sync.Common.Bits.{bit_or_fields}
use torrent_sync.NodeData.{NodeData, NodeData_ext, IsNodeData}

-- `draw i` is what the `i`-th call of `get` returns.
unfoldable pub get_random : (ℕ → ℕ) → NodeData
get_random draw = record {
  p1 = bit_or (draw 0 * 2 ^ 32 % 2 ^ 64) (draw 1);
  p2 = bit_or (draw 2 * 2 ^ 32 % 2 ^ 64) (draw 3);
  p3 = draw 4;
}

two_draws : (a b : ℕ) → a < 2 ^ 32 → b < 2 ^ 32 → bit_or (a * 2 ^ 32 % 2 ^ 64) b ≡ a * 2 ^ 32 + b
two_draws a b ha hb =
    let small : a * 2 ^ 32 % 2 ^ 64 ≡ a * 2 ^ 32 = omega (arith, ha) in
    rw small (bit_or_fields 32 a b hb)

-- The draws that give an identifier.
abbrev draws : NodeData → ℕ → ℕ
draws d zero = d.p1 / 2 ^ 32
draws d (suc zero) = d.p1 % 2 ^ 32
draws d (suc (suc zero)) = d.p2 / 2 ^ 32
draws d (suc (suc (suc zero))) = d.p2 % 2 ^ 32
draws d (suc (suc (suc (suc n)))) = d.p3

draws_small : (d : NodeData) → IsNodeData d → (i : ℕ) → draws d i < 2 ^ 32
draws_small d h zero = omega (arith, h.0)
draws_small d h (suc zero) = omega arith
draws_small d h (suc (suc zero)) = omega (arith, h.1)
draws_small d h (suc (suc (suc zero))) = omega arith
draws_small d h (suc (suc (suc (suc n)))) = h.2

-- A random identifier has words in range, and every identifier in range is drawn for some draws of
-- the generator.
pub get_random-IsNodeData :
    (draw : ℕ → ℕ) (d : NodeData)
    → ((i : ℕ) → draw i < 2 ^ 32)
    → IsNodeData d
    → IsNodeData (get_random draw)
      × (other : ℕ → ℕ) × ((i : ℕ) → other i < 2 ^ 32)
      × (get_random other ≡ d)
unfolding get_random
get_random-IsNodeData draw d small h = (
  (
    rw (two_draws (draw 0) (draw 1) (small 0) (small 1)) (omega (arith, small 0, small 1)),
    rw (two_draws (draw 2) (draw 3) (small 2) (small 3)) (omega (arith, small 2, small 3)),
    small 4,
  ),
  draws d,
  draws_small d h,
  NodeData_ext
      (two_draws (d.p1 / 2 ^ 32) (d.p1 % 2 ^ 32) (omega (arith, h.0)) (omega arith) ∙ omega arith)
      (two_draws (d.p2 / 2 ^ 32) (d.p2 % 2 ^ 32) (omega (arith, h.1)) (omega arith) ∙ omega arith)
      refl,
)
