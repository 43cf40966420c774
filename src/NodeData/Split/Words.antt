-- ===== src/NodeData/Split/Words.antt =====
-- The halves of a range within one word.
use torrent_sync.Common.{
  ap, ℕ, suc, ◌+◌, ◌-◌, ◌*◌, ◌^◌, ◌≤◌, ◌<◌, ◌≡◌, bit_and, bit_or, bit_xor, arith,
}
use torrent_sync.Common.Bits.{bit_xor_range, bit_or_fields, bit_and_high}
use native.Mathlib.Nat.{pow-suc, one-le-pow}
use torrent_sync.NodeData.Split.Range.{IsWordRange}
use torrent_sync.NodeData.Split.Masks.{kept}

-- The halves of a range of two words.
pub record WordHalves (w v j low high : ℕ) : Type 0 where
  pub differs : bit_xor low high ≡ 2 ^ suc j - 1
  pub set_free : bit_or low (2 ^ j - 1) ≡ low + (2 ^ j - 1)
  pub clear_free : bit_and high (kept w j) ≡ low + 2 ^ j
  pub lower : IsWordRange (suc v) j low (low + (2 ^ j - 1))
  pub upper : IsWordRange (suc v) j (low + 2 ^ j) high

pub word_halves :
    (w v j low high : ℕ)
    → v + suc j ≡ w
    → IsWordRange v (suc j) low high
    → WordHalves w v j low high
word_halves w v j low high e r =
    let q = r.leading in
    let twice : q * 2 ^ suc j ≡ 2 * (q * 2 ^ j) =
      omega (arith, ap (λ (t : ℕ). q * t) (pow-suc 2 j)) in
    let one : 1 ≤ 2 ^ j = one-le-pow j 2 (omega arith) in
    let room : 2 * q + 1 < 2 ^ suc v = omega (arith, r.fits, pow-suc 2 v) in
    let width : w - j ≡ suc v = omega arith in
    let high_as_odd : high ≡ (2 * q + 1) * 2 ^ j + (2 ^ j - 1) =
      omega (arith, r.high_word, pow-suc 2 j) in
    record {
      differs = rw (r.low_word, r.high_word) (bit_xor_range (suc j) q);
      set_free =
          rw r.low_word
            (bit_or_fields (suc j) q (2 ^ j - 1) (omega (arith, pow-suc 2 j, one-le-pow j 2)));
      clear_free =
          rw (high_as_odd, width)
            (omega (
              arith,
              r.low_word,
              bit_and_high j (suc v) (2 * q + 1) (2 ^ j - 1) (omega (arith, one-le-pow j 2)) room,
            ));
      lower = record {
        leading = 2 * q;
        fits = omega (arith, room);
        low_word = omega (arith, r.low_word);
        high_word = omega (arith, r.low_word);
      };
      upper = record {
        leading = 2 * q + 1;
        fits = room;
        low_word = omega (arith, r.low_word);
        high_word = omega (arith, high_as_odd);
      };
    }
