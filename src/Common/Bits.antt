-- ===== src/Common/Bits.antt =====
-- Bit operations on words, as arithmetic: one equation for the lowest digit, then the laws that
-- the program relies on, at every width.
use Prim.Native.Nat.{
  min, max, differ, digits, bitwise, ℕ, zero, suc, ◌+◌, ◌-◌, ◌*◌, ◌/◌, ◌%◌, ◌^◌, ◌≤◌, ◌<◌, bit_and,
  bit_or, bit_xor, bit_and-bitwise, bit_or-bitwise, bit_xor-bitwise,
}
use mathlib.Core.Path.{◌≡◌, ◌∙◌, refl, ap}
use native.Mathlib.Nat.{le_refl, pow-suc, one-le-pow}
use native.Mathlib.Omega.{arith}

-- How a bit operation acts on the lowest binary digit of its arguments.
abbrev pub ByDigit : (ℕ → ℕ → ℕ) → (ℕ → ℕ → ℕ) → Type 0
ByDigit op f = (x y : ℕ) → op x y ≡ op (x / 2) (y / 2) * 2 + f (x % 2) (y % 2)

-- The native operations recur on the digits with fuel; one unit more than needed changes nothing.
module _ (z : ℕ → ℕ) (f : ℕ → ℕ → ℕ) where
  one_more : (n x y : ℕ) → x ≤ n → digits z f (suc n) x y ≡ digits z f n x y
  one_more zero zero y h = refl
  one_more zero (suc x) y h = absurd (omega arith)
  one_more (suc n) zero y h = refl
  one_more (suc n) (suc x) y h = rw (one_more n (suc x / 2) (y / 2) (omega arith)) refl

  spare : (k n x y : ℕ) → n ≡ k + x → digits z f n x y ≡ digits z f x x y
  spare zero n x y e = ap (λ m. digits z f m x y) (omega (arith, e))
  spare (suc k) n x y e =
      ap (λ m. digits z f m x y) {y = suc (k + x)} (omega (arith, e))
      ∙ one_more (k + x) x y (omega arith)
      ∙ spare k (k + x) x y refl

  lowest_digit :
      (x y : ℕ)
      → bitwise z f (suc x) y ≡ bitwise z f (suc x / 2) (y / 2) * 2 + f (suc x % 2) (y % 2)
  lowest_digit x y = omega (arith, spare (x - suc x / 2) x (suc x / 2) (y / 2) (omega arith))

pub bit_or_step : ByDigit bit_or max
bit_or_step zero y = simp bit_or-bitwise (omega arith)
bit_or_step (suc x) y = simp bit_or-bitwise (lowest_digit (λ d. d) max x y)

pub bit_and_step : ByDigit bit_and min
bit_and_step zero y = simp bit_and-bitwise (omega arith)
bit_and_step (suc x) y = simp bit_and-bitwise (lowest_digit (λ d. 0) min x y)

differ_small : (x y : ℕ) → x < 2 → y < 2 → differ x y ≡ (x + y) % 2
differ_small zero y p q = omega arith
differ_small (suc zero) zero p q = refl
differ_small (suc zero) (suc zero) p q = refl
differ_small (suc zero) (suc (suc y)) p q = absurd (omega arith)
differ_small (suc (suc x)) y p q = absurd (omega arith)

pub bit_xor_step : (a b : ℕ) → bit_xor a b ≡ bit_xor (a / 2) (b / 2) * 2 + (a + b) % 2
bit_xor_step zero b = simp bit_xor-bitwise (omega arith)
bit_xor_step (suc a) b = omega (
  arith,
  bit_xor-bitwise (suc a) b,
  bit_xor-bitwise (suc a / 2) (b / 2),
  lowest_digit (λ y. y) differ a b,
  differ_small (suc a % 2) (b % 2) (omega arith) (omega arith),
)

-- Each recursion below is on a bound of the first number, which halves.
zero-fuel : (n a : ℕ) → a ≤ n → (bit_or a 0 ≡ a) × (bit_and a 0 ≡ 0) × (bit_xor a a ≡ 0)
zero-fuel n zero h = (refl, refl, refl)
zero-fuel zero (suc a) h = absurd (omega arith)
zero-fuel (suc n) (suc a) h =
    let ih = zero-fuel n (suc a / 2) (omega arith) in
    (
      omega (arith, bit_or_step (suc a) 0),
      omega (arith, bit_and_step (suc a) 0),
      omega (arith, bit_xor_step (suc a) (suc a)),
    )

pub bit_or-zero : (a : ℕ) → bit_or a 0 ≡ a
bit_or-zero a = (zero-fuel a a (le_refl a)).0

pub bit_and-zero : (a : ℕ) → bit_and a 0 ≡ 0
bit_and-zero a = (zero-fuel a a (le_refl a)).1

pub bit_xor_self : (a : ℕ) → bit_xor a a ≡ 0
bit_xor_self a = (zero-fuel a a (le_refl a)).2

double : (q k : ℕ) → q * 2 ^ suc k ≡ 2 * (q * 2 ^ k)
double q k = omega (arith, ap (λ (t : ℕ). q * t) (pow-suc 2 k))

-- `(q << k) | r` is a sum when `r` fits `k` bits.
pub bit_or_fields : (k q r : ℕ) → r < 2 ^ k → bit_or (q * 2 ^ k) r ≡ q * 2 ^ k + r
bit_or_fields zero q r h = ground (arith, bit_or-zero q)
bit_or_fields (suc k) q r h = ground (
  arith,
  bit_or_step (q * 2 ^ suc k) r,
  double q k,
  bit_or_fields k q (r / 2) (omega (arith, pow-suc 2 k)),
)

-- Two numbers with the same bits from `k` up, the lower one with zeros and the higher one with
-- ones below, differ in the `k` lowest bits.
pub bit_xor_range : (k q : ℕ) → bit_xor (q * 2 ^ k) (q * 2 ^ k + (2 ^ k - 1)) ≡ 2 ^ k - 1
bit_xor_range zero q = ground (arith, bit_xor_self q)
bit_xor_range (suc k) q = ground (
  arith,
  bit_xor_step (q * 2 ^ suc k) (q * 2 ^ suc k + (2 ^ suc k - 1)),
  double q k,
  pow-suc 2 k,
  one-le-pow k 2,
  bit_xor_range k q,
)

-- A mask of `k` low ones keeps the `k` lowest bits.
pub bit_and_low : (k q r : ℕ) → r < 2 ^ k → bit_and (q * 2 ^ k + r) (2 ^ k - 1) ≡ r
bit_and_low zero q r h = rw bit_and-zero (omega arith)
bit_and_low (suc k) q r h = ground (
  arith,
  bit_and_step (q * 2 ^ suc k + r) (2 ^ suc k - 1),
  double q k,
  pow-suc 2 k,
  one-le-pow k 2,
  bit_and_low k q (r / 2) (omega (arith, pow-suc 2 k)),
)

-- A word and all ones.
pub bit_and_ones : (w a : ℕ) → a < 2 ^ w → bit_and a (2 ^ w - 1) ≡ a
bit_and_ones w a h = let e : 0 * 2 ^ w + a ≡ a = omega arith in rw e at (bit_and_low w 0 a h)

-- A mask with `k` low zeros clears the `k` lowest bits of a word.
pub bit_and_high :
    (k v q r : ℕ)
    → r < 2 ^ k
    → q < 2 ^ v
    → bit_and (q * 2 ^ k + r) ((2 ^ v - 1) * 2 ^ k) ≡ q * 2 ^ k
bit_and_high zero v q r hr hq = ground (arith, bit_and_ones v q hq)
bit_and_high (suc k) v q r hr hq = ground (
  arith,
  bit_and_step (q * 2 ^ suc k + r) ((2 ^ v - 1) * 2 ^ suc k),
  double q k,
  double (2 ^ v - 1) k,
  pow-suc 2 k,
  bit_and_high k v q (r / 2) (omega (arith, pow-suc 2 k)) hq,
)

-- Exclusive or stays within the word.
pub bit_xor_lt : (w a b : ℕ) → a < 2 ^ w → b < 2 ^ w → bit_xor a b < 2 ^ w
bit_xor_lt zero a b ha hb =
    let za : a ≡ 0 = omega arith in let zb : b ≡ 0 = omega arith in rw (za, zb) (omega arith)
bit_xor_lt (suc w) a b ha hb = omega (
  arith,
  bit_xor_step a b,
  pow-suc 2 w,
  bit_xor_lt w (a / 2) (b / 2) (omega (arith, pow-suc 2 w)) (omega (arith, pow-suc 2 w)),
)
