-- ===== src/NodeData/Split/Halves.antt =====
-- What `splitInHalf` computes on the bounds of a bucket: two ranges of half the size.
use torrent_sync.Common.{
  ◌∙◌, sym, subst, ℕ, zero, suc, ◌+◌, ◌-◌, ◌^◌, ◌≤◌, ◌<◌, ◌≡◌, refl, none, some, arith,
}
use torrent_sync.Common.Bits.{bit_xor_self, bit_or-zero, bit_and_ones}
use native.Mathlib.Nat.{one-le-pow}
use torrent_sync.NodeData.{NodeData, value}
use torrent_sync.NodeData.Split.{common_mask, is_full, split_in_half}
use torrent_sync.NodeData.Split.Range.{
  IsWordRange, IsRange, in_p1, in_p2, in_p3, range_p2, range_p1,
}
use torrent_sync.NodeData.Split.Masks.{
  mask_p1, mask_p2, mask_p3, masked_p1, masked_p2, masked_p3, split_by_mask,
}
use torrent_sync.NodeData.Split.Words.{word_halves}

-- The two halves of a range, as `splitInHalf` returns them.
pub record Halves (n : ℕ) (low high : NodeData) : Type 0 where
  pub half_low : NodeData
  pub half_high : NodeData
  pub splits : split_in_half low high ≡ some (half_low, half_high)
  pub lower : IsRange n low half_low
  pub upper : IsRange n half_high high
  pub adjacent : value half_high ≡ value half_low + 1
  pub equal_sizes : value half_low + value half_high ≡ value low + value high

p3-Halves :
    (v j : ℕ) {low high : NodeData}
    → v + suc j ≡ 32
    → low.p1 < 2 ^ 64
    → high.p1 ≡ low.p1
    → low.p2 < 2 ^ 64
    → high.p2 ≡ low.p2
    → IsWordRange v (suc j) low.p3 high.p3
    → Halves j low high
p3-Halves v j {low} {high} e b1 e1 b2 e2 r =
    let k = masked_p3 j (omega arith) in
    let h = word_halves 32 v j low.p3 high.p3 e r in
    let one : 1 ≤ 2 ^ j = one-le-pow j 2 (omega arith) in
    let masked : common_mask low high ≡ mask_p3 j =
      unfold common_mask in rw (e1, e2, bit_xor_self low.p1, bit_xor_self low.p2, h.differs) refl in
    record {
      half_low = record { p1 = low.p1; p2 = low.p2; p3 = low.p3 + (2 ^ j - 1) };
      half_high = record { p1 = low.p1; p2 = low.p2; p3 = low.p3 + 2 ^ j };
      splits =
          split_by_mask low high masked k
          ∙ rw
              (
                e1,
                e2,
                bit_or-zero low.p1,
                bit_or-zero low.p2,
                bit_and_ones 64 low.p1 b1,
                bit_and_ones 64 low.p2 b2,
                h.set_free,
                h.clear_free,
              )
              refl;
      lower = in_p3 (suc v) j (omega arith) b1 refl b2 refl h.lower;
      upper = in_p3 (suc v) j (omega arith) b1 e1 b2 e2 h.upper;
      adjacent = omega (arith, one);
      equal_sizes = omega (arith, one, e1, e2, h.upper.low_word, h.upper.high_word);
    }

p2-Halves :
    (v j : ℕ) {low high : NodeData}
    → v + suc j ≡ 64
    → low.p1 < 2 ^ 64
    → high.p1 ≡ low.p1
    → IsWordRange v (suc j) low.p2 high.p2
    → low.p3 ≡ 0
    → high.p3 ≡ 2 ^ 32 - 1
    → Halves (32 + j) low high
p2-Halves v j {low} {high} e b1 e1 r l3 h3 =
    let k = masked_p2 j (omega arith) in
    let h = word_halves 64 v j low.p2 high.p2 e r in
    let one : 1 ≤ 2 ^ j = one-le-pow j 2 (omega arith) in
    let masked : common_mask low high ≡ mask_p2 j =
      unfold common_mask in rw (e1, l3, h3, bit_xor_self low.p1, h.differs) refl in
    record {
      half_low = record { p1 = low.p1; p2 = low.p2 + (2 ^ j - 1); p3 = 2 ^ 32 - 1 };
      half_high = record { p1 = low.p1; p2 = low.p2 + 2 ^ j; p3 = 0 };
      splits =
          split_by_mask low high masked k
          ∙ rw (e1, l3, h3, bit_or-zero low.p1, bit_and_ones 64 low.p1 b1, h.set_free, h.clear_free)
              refl;
      lower = range_p2 (suc v) j (omega arith) b1 refl h.lower l3 refl;
      upper = range_p2 (suc v) j (omega arith) b1 e1 h.upper refl h3;
      adjacent = omega (arith, one);
      equal_sizes = omega (arith, one, e1, l3, h3, h.upper.low_word, h.upper.high_word);
    }

p1-Halves :
    (v j : ℕ) {low high : NodeData}
    → v + suc j ≡ 64
    → IsWordRange v (suc j) low.p1 high.p1
    → low.p2 ≡ 0
    → high.p2 ≡ 2 ^ 64 - 1
    → low.p3 ≡ 0
    → high.p3 ≡ 2 ^ 32 - 1
    → Halves (96 + j) low high
p1-Halves v j {low} {high} e r l2 h2 l3 h3 =
    let k = masked_p1 j (omega arith) in
    let h = word_halves 64 v j low.p1 high.p1 e r in
    let one : 1 ≤ 2 ^ j = one-le-pow j 2 (omega arith) in
    let masked : common_mask low high ≡ mask_p1 j =
      unfold common_mask in rw (l2, h2, l3, h3, h.differs) refl in
    record {
      half_low = record { p1 = low.p1 + (2 ^ j - 1); p2 = 2 ^ 64 - 1; p3 = 2 ^ 32 - 1 };
      half_high = record { p1 = low.p1 + 2 ^ j; p2 = 0; p3 = 0 };
      splits = split_by_mask low high masked k ∙ rw (l2, h2, l3, h3, h.set_free, h.clear_free) refl;
      lower = range_p1 (suc v) j (omega arith) h.lower l2 refl l3 refl;
      upper = range_p1 (suc v) j (omega arith) h.upper refl h2 refl h3;
      adjacent = omega (arith, one);
      equal_sizes = omega (arith, one, l2, h2, l3, h3, h.upper.low_word, h.upper.high_word);
    }

split_self : (d : NodeData) → split_in_half d d ≡ none
unfolding split_in_half common_mask is_full
split_self d = rw (bit_xor_self d.p1, bit_xor_self d.p2, bit_xor_self d.p3) refl

halves : (m n : ℕ) {low high : NodeData} → m ≡ suc n → IsRange m low high → Halves n low high
halves m n h (in_p3 v zero e b1 e1 b2 e2 r) = absurd (omega arith)
halves m n {low} {high} h (in_p3 v (suc j) e b1 e1 b2 e2 r) =
    subst (λ k. Halves k low high) (omega arith) (p3-Halves v j e b1 e1 b2 e2 r)
halves m n {low} {high} h (in_p2 v j e b1 e1 r l3 h3) =
    subst (λ k. Halves k low high) (omega arith) (p2-Halves v j e b1 e1 r l3 h3)
halves m n {low} {high} h (in_p1 v j e r l2 h2 l3 h3) =
    subst (λ k. Halves k low high) (omega arith) (p1-Halves v j e r l2 h2 l3 h3)

-- A range with a free bit left is split into two adjacent ranges of the same size, each with one
-- free bit less, that together cover it.
pub split_in_half-Halves :
    (n : ℕ) {low high : NodeData} → IsRange (suc n) low high → Halves n low high
split_in_half-Halves n r = halves (suc n) n refl r

no_free_bit :
    (m : ℕ) {low high : NodeData}
    → m ≡ 0
    → IsRange m low high
    → (low ≡ high) × (split_in_half low high ≡ none)
no_free_bit m {low} {high} h (in_p3 v (suc k) e b1 e1 b2 e2 r) = absurd (omega arith)
no_free_bit m {low} {high} h (in_p2 v k e b1 e1 r l3 h3) = absurd (omega arith)
no_free_bit m {low} {high} h (in_p1 v k e r l2 h2 l3 h3) = absurd (omega arith)
no_free_bit m {low} {high} h (in_p3 v zero e b1 e1 b2 e2 r) =
    let same : low ≡ high = λ i. record {
      p1 = sym e1 i;
      p2 = sym e2 i;
      p3 = (let e3 : low.p3 ≡ high.p3 = omega arith in e3) i;
    } in
    (same, rw same (split_self high))

-- A range of one identifier is not split.
pub split_in_half-none :
    {low high : NodeData} → IsRange 0 low high → (low ≡ high) × (split_in_half low high ≡ none)
split_in_half-none r = no_free_bit 0 refl r
