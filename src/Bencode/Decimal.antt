-- ===== src/Bencode/Decimal.antt =====
-- Decimal numerals: a concrete `lexical_cast` with the documented behaviour, for the tests.
use torrent_sync.Common.{
  ap, ℕ, zero, suc, ◌+◌, ◌-◌, ◌*◌, ◌/◌, ◌%◌, ◌^◌, ◌≤◌, ◌<◌, ◌≡◌, ◌≢◌, refl, inl, inr, true,
  Bool-cases, ltb, if◌then◌else◌, Option, none, some, [], ◌∷◌, ◌++◌, length, length-append, All,
  All-append, arith,
}
use native.Mathlib.Nat.{pow-suc}
use torrent_sync.NodeData.Codec.{Buffer}
use torrent_sync.Bencode.{is_digit}
use torrent_sync.Bencode.Boost.{Boost, IsBoost, numeral}

digits_of : ℕ → ℕ → Buffer
digits_of zero n = []
digits_of (suc fuel) n =
    let rest = digits_of fuel (n / 10) in
    if ltb n 10 then (48 + n) ∷ [] else rest ++ (48 + n % 10) ∷ []

read_int : Buffer → Option ℕ
read_int [] = none
read_int (c ∷ cs) = let n = numeral 0 (c ∷ cs) in if ltb n (2 ^ 31) then some n else none

pub decimal : Boost
decimal = record { to_string = λ n. digits_of (suc n) n; to_int = read_int }

numeral-snoc : (n c : ℕ) (cs : Buffer) → numeral n (cs ++ c ∷ []) ≡ numeral n cs * 10 + (c - 48)
numeral-snoc n c [] = refl
numeral-snoc n c (d ∷ ds) = numeral-snoc (n * 10 + (d - 48)) c ds

snoc_nonempty : (cs : Buffer) (c : ℕ) → cs ++ c ∷ [] ≢ []
snoc_nonempty [] c = λ e. cc
snoc_nonempty (d ∷ ds) c = λ e. cc

digits_of-nonempty : (fuel n : ℕ) → digits_of (suc fuel) n ≢ []
unfolding digits_of
digits_of-nonempty fuel n = elim (Bool-cases (ltb n 10)) [
  | inl e ↦ rw e (λ h. cc)
  | inr e ↦ rw e (snoc_nonempty (digits_of fuel (n / 10)) (48 + n % 10))
]

digits_of-digits : (fuel n : ℕ) → All (λ c. is_digit c ≡ true) (digits_of fuel n)
unfolding digits_of
digits_of-digits zero n = tt
digits_of-digits (suc fuel) n = elim (Bool-cases (ltb n 10)) [
  | inl e ↦ rw e ((ground (arith, e), tt))
  | inr e ↦ rw e (
      All-append (λ c. is_digit c ≡ true) (digits_of fuel (n / 10)) ((48 + n % 10) ∷ [])
        (digits_of-digits fuel (n / 10)) (ground arith, tt))
]

digits_of-numeral : (fuel n : ℕ) → n < fuel → numeral 0 (digits_of fuel n) ≡ n
unfolding digits_of
digits_of-numeral zero n h = absurd (omega arith)
digits_of-numeral (suc fuel) n h = elim (Bool-cases (ltb n 10)) [
  | inl e ↦ rw e (omega arith)
  | inr e ↦
      let big : 10 ≤ n = ground (arith, e) in
      rw e (
        omega (
          arith,
          numeral-snoc 0 (48 + n % 10) (digits_of fuel (n / 10)),
          digits_of-numeral fuel (n / 10) (omega (arith, big, h)),
        ))
]

length-digits_of : (fuel n k : ℕ) → n < 10 ^ suc k → length (digits_of fuel n) ≤ suc k
unfolding digits_of
length-digits_of zero n k h = omega arith
length-digits_of (suc fuel) n zero h =
    let one : ltb n 10 ≡ true = ground (arith, h) in rw one (omega arith)
length-digits_of (suc fuel) n (suc k) h = elim (Bool-cases (ltb n 10)) [
  | inl e ↦ rw e (omega arith)
  | inr e ↦ rw e (
      omega (
        arith,
        length-append (digits_of fuel (n / 10)) ((48 + n % 10) ∷ []),
        length-digits_of fuel (n / 10) k (omega (arith, h, pow-suc 10 (suc k))),
      ))
]

read_int-numeral :
    (cs : Buffer) (n : ℕ) → cs ≢ [] → numeral 0 cs ≡ n → n < 2 ^ 31 → read_int cs ≡ some n
unfolding read_int
read_int-numeral [] n some_digit e h = absurd (some_digit refl)
read_int-numeral (c ∷ cs) n some_digit e h =
    let fits : ltb (numeral 0 (c ∷ cs)) (2 ^ 31) ≡ true = ground (arith, e, h) in
    rw fits (ap some e)

pub decimal-IsBoost : IsBoost decimal
unfolding decimal
decimal-IsBoost = record {
  some_digit = λ n. digits_of-nonempty n n;
  digits = λ n. digits_of-digits (suc n) n;
  denotes = λ n. digits_of-numeral (suc n) n (omega arith);
  few_digits = λ n h. length-digits_of (suc n) n 2 (omega (arith, h));
  back = λ n h.
      read_int-numeral (digits_of (suc n) n) n (digits_of-nonempty n n)
        (digits_of-numeral (suc n) n (omega arith)) h;
  no_digit = unfold read_int in refl;
}
