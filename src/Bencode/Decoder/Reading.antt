-- ===== src/Bencode/Decoder/Reading.antt =====
-- The decoder reads back the elements that the encoder writes.
use mathlib.Core.List.{append_assoc}
use torrent_sync.Common.{
  ap, ℕ, ◌+◌, ◌-◌, ◌*◌, ◌^◌, ◌<◌, ◌≡◌, ◌≢◌, refl, Bool, true, false, ltb, ◌==◌, some, [], ◌∷◌, ◌++◌,
  length, length-append, take, drop, All, returns, arith,
}
use torrent_sync.NodeData.Codec.{Buffer}
use torrent_sync.Bencode.{separator, is_digit}
use torrent_sync.Bencode.Boost.{Boost, IsBoost, numeral}
use torrent_sync.Bencode.Encoder.Elements.{element}
use torrent_sync.Bencode.Stream.{
  Stream, make_stream, good, get, extract, extract_at, skip_spaces, scan_sign, scan_digits,
  starts_with_digit, is_space, is_empty,
}
use torrent_sync.Bencode.Stream
use torrent_sync.Bencode.Decoder.{
  c_string, ranged, fits_int, fits_size, check_length, read_length, read_string, read_element,
  get_bytes, read_value,
}
use torrent_sync.Bencode.Decoder.Parse.{Reserve}

abbrev pub IsDigits : Buffer → Type 0
IsDigits ds = All (λ c. is_digit c ≡ true) ds

scan_digits_lem :
    (n : ℕ) (ds rest : Buffer)
    → IsDigits ds
    → scan_digits n (ds ++ separator ∷ rest) ≡ (numeral n ds, separator ∷ rest)
unfolding scan_digits
scan_digits_lem n [] rest h = refl
scan_digits_lem n (d ∷ ds) rest h = rw (h.0) (scan_digits_lem (n * 10 + (d - 48)) ds rest h.1)

-- Digits are neither spaces nor signs.
extract_digits :
    (ds rest : Buffer)
    → ds ≢ []
    → IsDigits ds
    → extract (make_stream (ds ++ separator ∷ rest))
      ≡ (some (false, numeral 0 ds), make_stream (separator ∷ rest))
extract_digits [] rest some_digit h = absurd (some_digit refl)
extract_digits (d ∷ ds) rest some_digit h =
    let no_space : is_space d ≡ false = ground (arith, h.0) in
    let no_minus : (d == 45) ≡ false = ground (arith, h.0) in
    let no_plus : (d == 43) ≡ false = ground (arith, h.0) in
    unfold extract skip_spaces extract_at scan_sign in
    rw (no_space, no_minus, no_plus, scan_digits_lem 0 (d ∷ ds) rest h, h.0) refl

module _ (boost : Boost) (b : IsBoost boost) where
  pub read_length_lem :
      (fits : Bool → ℕ → Bool) (n : ℕ) (rest : Buffer)
      → fits false n ≡ true
      → read_length fits (make_stream (boost.to_string n ++ separator ∷ rest))
        ≡ returns ((false, n), make_stream rest)
  read_length_lem fits n rest h =
      let number : ranged fits (extract (make_stream (boost.to_string n ++ separator ∷ rest)))
          ≡ (some (false, n), make_stream (separator ∷ rest)) =
        rw (extract_digits (boost.to_string n) rest (b.some_digit n) (b.digits n), b.denotes n)
          (unfold ranged in rw h refl) in
      unfold read_length in rw number (unfold check_length get Stream.get_at in refl)

get_bytes_lem :
    (bytes rest : Buffer)
    → get_bytes (length bytes) (make_stream (bytes ++ rest)) ≡ (bytes, make_stream rest)
unfolding get_bytes get Stream.get_at
get_bytes_lem [] rest = refl
get_bytes_lem (c ∷ cs) rest = rw (get_bytes_lem cs rest) refl

take_append : (xs ys : Buffer) → take (length xs) (xs ++ ys) ≡ xs
take_append [] ys = refl
take_append (x ∷ xs) ys = ap (λ l. x ∷ l) (take_append xs ys)

drop_append : (xs ys : Buffer) → drop (length xs) (xs ++ ys) ≡ ys
drop_append [] ys = refl
drop_append (x ∷ xs) ys = drop_append xs ys

read_lem :
    (bytes rest : Buffer)
    → Stream.read (length bytes) (make_stream (bytes ++ rest)) ≡ ((bytes, true), make_stream rest)
unfolding Stream.read
read_lem bytes rest =
    let enough : ltb (length (bytes ++ rest)) (length bytes) ≡ false =
      ground (arith, length-append bytes rest) in
    rw (enough, take_append bytes rest, drop_append bytes rest) refl

module _ (boost : Boost) (b : IsBoost boost) where
  pub read_value-element :
      (reserve : Reserve) (bytes rest : Buffer)
      → length bytes < 2 ^ 64
      → reserve (length bytes) ≡ returns tt
      → read_value reserve (make_stream (element boost bytes ++ rest))
        ≡ returns (bytes, make_stream rest)
  read_value-element reserve bytes rest small room =
      let whole : element boost bytes ++ rest
          ≡ boost.to_string (length bytes) ++ separator ∷ (bytes ++ rest) =
        append_assoc (boost.to_string (length bytes)) (separator ∷ bytes) rest in
      let fits : fits_size false (length bytes) ≡ true = ground (arith, small) in
      unfold read_value in
      rw
        (
          whole,
          read_length_lem boost b fits_size (length bytes) (bytes ++ rest) fits,
          room,
          get_bytes_lem bytes rest,
        )
        refl

  pub read_element-element :
      (key rest : Buffer)
      → length key < 2 ^ 31
      → c_string key ≡ key
      → read_element (make_stream (element boost key ++ rest)) ≡ returns (key, make_stream rest)
  read_element-element key rest small no_zero =
      let whole : element boost key ++ rest
          ≡ boost.to_string (length key) ++ separator ∷ (key ++ rest) =
        append_assoc (boost.to_string (length key)) (separator ∷ key) rest in
      let fits : fits_int false (length key) ≡ true = ground (arith, small) in
      unfold read_element in
      rw (whole, read_length_lem boost b fits_int (length key) (key ++ rest) fits)
        (unfold read_string in rw (read_lem key rest, no_zero) refl)
