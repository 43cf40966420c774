-- ===== src/NodeData.antt =====
-- torrentsync/dht/NodeData.h, NodeData.cpp and Distance.h: the 160-bit identifier, kept in two
-- 64-bit words and one 32-bit word, with its comparisons and the distance operator.
pub mod Tests
pub mod Order
pub mod Split
pub mod Codec
pub mod Hex
pub mod Random
use torrent_sync.Common.{
  ℕ, ◌+◌, ◌*◌, ◌^◌, ◌<◌, ◌≡◌, Bool, ◌&&◌, ◌||◌, not, ltb, ◌==◌, bit_xor, Outcome,
}

-- `p1` holds bits 0 to 63, `p2` bits 64 to 127 and `p3` bits 128 to 159.
pub record NodeData : Type 0 where
  pub p1 : ℕ
  pub p2 : ℕ
  pub p3 : ℕ

pub NodeData_ext : {a b : NodeData} → a.p1 ≡ b.p1 → a.p2 ≡ b.p2 → a.p3 ≡ b.p3 → a ≡ b
NodeData_ext e1 e2 e3 = λ i. record { p1 = e1 i; p2 = e2 i; p3 = e3 i }

-- The words fit `uint64_t`, `uint64_t` and `uint32_t`.
abbrev pub IsNodeData : NodeData → Type 0
IsNodeData d = (d.p1 < 2 ^ 64) × (d.p2 < 2 ^ 64) × (d.p3 < 2 ^ 32)

-- The 160-bit number that the words stand for, most significant first.
abbrev pub value : NodeData → ℕ
value d = d.p1 * 2 ^ 96 + d.p2 * 2 ^ 32 + d.p3

unfoldable pub eq : NodeData → NodeData → Bool
eq a b = a.p1 == b.p1 && (a.p2 == b.p2 && a.p3 == b.p3)

unfoldable pub ne : NodeData → NodeData → Bool
ne a b = not (a.p1 == b.p1) || (not (a.p2 == b.p2) || not (a.p3 == b.p3))

unfoldable pub lt : NodeData → NodeData → Bool
lt a b =
    ltb a.p1 b.p1
    || (a.p1 == b.p1 && ltb a.p2 b.p2 || a.p1 == b.p1 && (a.p2 == b.p2 && ltb a.p3 b.p3))

unfoldable pub le : NodeData → NodeData → Bool
le a b =
    ltb a.p1 b.p1
    || (a.p1 == b.p1 && ltb a.p2 b.p2
        || (a.p1 == b.p1 && (a.p2 == b.p2 && ltb a.p3 b.p3)
            || a.p1 == b.p1 && (a.p2 == b.p2 && a.p3 == b.p3)))

unfoldable pub gt : NodeData → NodeData → Bool
gt a b =
    ltb b.p1 a.p1
    || (a.p1 == b.p1 && ltb b.p2 a.p2 || a.p1 == b.p1 && (a.p2 == b.p2 && ltb b.p3 a.p3))

unfoldable pub ge : NodeData → NodeData → Bool
ge a b =
    ltb b.p1 a.p1
    || (a.p1 == b.p1 && ltb b.p2 a.p2
        || (a.p1 == b.p1 && (a.p2 == b.p2 && ltb b.p3 a.p3)
            || a.p1 == b.p1 && (a.p2 == b.p2 && a.p3 == b.p3)))

-- `operator^`; a `Distance` is a `NodeData` with no operation of its own.
abbrev pub Distance : Type 0
Distance = NodeData

unfoldable pub distance : NodeData → NodeData → Distance
distance a b = record { p1 = bit_xor a.p1 b.p1; p2 = bit_xor a.p2 b.p2; p3 = bit_xor a.p3 b.p3 }
