-- ===== src/Bencode/Boost.antt =====
-- `boost::lexical_cast`, which is not part of the program: between numbers and their numerals.
use torrent_sync.Common.{
  ℕ, ◌+◌, ◌*◌, ◌-◌, ◌≤◌, ◌<◌, ◌≡◌, ◌≢◌, ◌^◌, length, true, Option, none, some, [], ◌∷◌, All,
}
use torrent_sync.NodeData.Codec.{Buffer}
use torrent_sync.Bencode.{is_digit}

-- `to_string` casts to `std::string` and `to_int` to `int`; `none` is an exception.
pub record Boost : Type 0 where
  pub to_string : ℕ → Buffer
  pub to_int : Buffer → Option ℕ

-- The number that digits denote, after a number that stands before them.
abbrev pub numeral : ℕ → Buffer → ℕ
numeral n [] = n
numeral n (c ∷ cs) = numeral (n * 10 + (c - 48)) cs

-- The documented behaviour: a cast to a string gives the digits of the number, and a cast to `int`
-- reads digits as a number where it fits.
pub record IsBoost (boost : Boost) : Type 0 where
  pub some_digit : (n : ℕ) → boost.to_string n ≢ []
  pub digits : (n : ℕ) → All (λ c. is_digit c ≡ true) (boost.to_string n)
  pub denotes : (n : ℕ) → numeral 0 (boost.to_string n) ≡ n
  pub few_digits : (n : ℕ) → n < 1000 → length (boost.to_string n) ≤ 3
  pub back : (n : ℕ) → n < 2 ^ 31 → boost.to_int (boost.to_string n) ≡ some n
  pub no_digit : boost.to_int [] ≡ none
