-- ===== src/NodeData/Codec/BigEndian.antt =====
-- Numbers as bytes, most significant first: what `read` and `write` are held against.
use native.Mathlib.Nat.{div-eq_of_lt-le, pow-suc, one-le-pow}
use torrent_sync.Common.{
  ◌∙◌, ap₂, ℕ, zero, suc, ◌+◌, ◌*◌, ◌/◌, ◌%◌, ◌^◌, ◌≤◌, ◌<◌, ◌≡◌, refl, [], ◌∷◌, length, take, drop,
  bit_and, bit_or, All, arith, returns,
}
use torrent_sync.Common.Bits.{bit_or_fields, bit_and_low}
use torrent_sync.NodeData.Codec.{Buffer, shift_in}

abbrev pub IsBytes : Buffer → Type 0
IsBytes = All (λ b. b < 256)

abbrev pub be_value : ℕ → Buffer → ℕ
be_value acc [] = acc
be_value acc (b ∷ bs) = be_value (acc * 256 + b) bs

abbrev pub be_bytes : ℕ → ℕ → Buffer
be_bytes zero p = []
be_bytes (suc n) p = (p / 256 ^ n % 256) ∷ be_bytes n p

pub low_byte : (x : ℕ) → bit_and x 0xFF ≡ x % 256
low_byte x =
    let e : x / 256 * 2 ^ 8 + x % 256 ≡ x = omega arith in
    rw e at (bit_and_low 8 (x / 256) (x % 256) (omega arith))

or_byte : (w p b : ℕ) → b < 256 → p * 256 < 2 ^ w → bit_or (p * 2 ^ 8 % 2 ^ w) b ≡ p * 256 + b
or_byte w p b hb hp =
    let small : p * 2 ^ 8 % 2 ^ w ≡ p * 2 ^ 8 = grind arith in rw small (bit_or_fields 8 p b hb)

times_mono : (a b m : ℕ) → a ≤ b → a * m ≤ b * m
times_mono a b m h = grind arith

-- The loop of `read` computes the number that the bytes stand for, if the word is wide enough.
pub shift_in-be_value :
    (w n p : ℕ) (bs : Buffer)
    → n ≤ length bs
    → IsBytes bs
    → 256 ^ n * suc p ≤ 2 ^ w
    → shift_in w n p bs ≡ returns (be_value p (take n bs), drop n bs)
unfolding shift_in
shift_in-be_value w zero p bs h bytes wide = refl
shift_in-be_value w (suc n) p [] h bytes wide = absurd (omega arith)
shift_in-be_value w (suc n) p (b ∷ bs) h bytes wide =
    let one : 1 ≤ 256 ^ n = one-le-pow n 256 (omega arith) in
    let wide' : 256 ^ n * 256 * suc p ≤ 2 ^ w = rw pow-suc at wide in
    let grows0 : 1 * (256 * suc p) ≤ 256 ^ n * (256 * suc p) =
      times_mono 1 (256 ^ n) (256 * suc p) one in
    let fits : p * 256 < 2 ^ w = omega (arith, grows0, wide') in
    let grows : suc (p * 256 + b) * 256 ^ n ≤ 256 * suc p * 256 ^ n =
      times_mono (suc (p * 256 + b)) (256 * suc p) (256 ^ n) (omega (arith, bytes.0)) in
    rw (or_byte w p b bytes.0 fits)
      (shift_in-be_value w n (p * 256 + b) bs (omega arith) bytes.1 (omega (arith, grows, wide')))

be_value_shift : (acc : ℕ) (bs : Buffer) → be_value acc bs ≡ acc * 256 ^ length bs + be_value 0 bs
be_value_shift acc [] = omega arith
be_value_shift acc (b ∷ bs) =
    be_value_shift (acc * 256 + b) bs
    ∙ rw (pow-suc 256 (length bs), be_value_shift (0 * 256 + b) bs) (omega arith)

be_value-lt : (bs : Buffer) → IsBytes bs → be_value 0 bs < 256 ^ length bs
be_value-lt [] h = omega arith
be_value-lt (b ∷ bs) h =
    let grows : suc b * 256 ^ length bs ≤ 256 * 256 ^ length bs =
      times_mono (suc b) 256 (256 ^ length bs) h.0 in
    rw (pow-suc 256 (length bs), be_value_shift (0 * 256 + b) bs)
      (omega (arith, be_value-lt bs h.1, grows))

digit : (x b r m : ℕ) → r < m → b < 256 → ((x * 256 + b) * m + r) / m % 256 ≡ b
digit x b r m hr hb =
    let e : ((x * 256 + b) * m + r) / m ≡ x * 256 + b =
      div-eq_of_lt-le m (omega arith) (omega arith) in
    rw e (omega arith)

-- Bytes come back from the number that they stand for.
pub be_bytes-be_value :
    (acc : ℕ) (bs : Buffer) → IsBytes bs → be_bytes (length bs) (be_value acc bs) ≡ bs
be_bytes-be_value acc [] h = refl
be_bytes-be_value acc (b ∷ bs) h =
    ap₂ ◌∷◌
      (rw (be_value_shift (acc * 256 + b) bs)
        (digit acc b (be_value 0 bs) (256 ^ length bs) (be_value-lt bs h.1) h.0))
      (be_bytes-be_value (acc * 256 + b) bs h.1)
