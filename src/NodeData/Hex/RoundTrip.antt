-- ===== src/NodeData/Hex/RoundTrip.antt =====
-- The hexadecimal form of an identifier is parsed as its bytes.
use mathlib.Core.List.{append-nil}
use torrent_sync.Common.{
  ap, ap₂, sym, ◌∙◌, ℕ, zero, suc, ◌+◌, ◌*◌, ◌-◌, ◌/◌, ◌%◌, ◌^◌, ◌≤◌, ◌<◌, ◌≡◌, refl, inl, inr,
  Bool-cases, ◌==◌, [], ◌∷◌, ◌++◌, length, replicate, returns, arith,
}
use torrent_sync.NodeData.{NodeData}
use torrent_sync.NodeData.Codec.{Buffer, write}
use torrent_sync.NodeData.Codec.BigEndian.{be_bytes}
use torrent_sync.NodeData.Codec.RoundTrip.{write_lem}
use torrent_sync.NodeData.Hex.{
  hex_digit, hex_digits, strip, put_number, string, read_pairs, parse_id_from_hex,
}

-- The documented behaviour of the stream: two digits are read as the number that they denote.
abbrev pub IsHexReader : (Buffer → ℕ) → Type 0
IsHexReader read_hex =
    (a b : ℕ) → a < 16 → b < 16 → read_hex (hex_digit a ∷ hex_digit b ∷ []) ≡ a * 16 + b

length-strip : (xs : Buffer) → length (strip xs) ≤ length xs
unfolding strip
length-strip [] = omega arith
length-strip (x ∷ []) = omega arith
length-strip (x ∷ y ∷ ys) = ground (arith, length-strip (y ∷ ys))

replicate-suc : (n m : ℕ) → n ≡ suc m → replicate {A = ℕ} n 48 ≡ 48 ∷ replicate m 48
replicate-suc n m e = ap (λ k. replicate {A = ℕ} k 48) e

-- The width puts back the zeros that the numeral leaves out.
put_number-strip : (xs : Buffer) → put_number (length xs) (strip xs) ≡ xs
unfolding put_number strip
put_number-strip [] = refl
put_number-strip (x ∷ []) = refl
put_number-strip (x ∷ y ∷ ys) = elim (Bool-cases (x == 48)) [
  | inl e ↦
      let zero_digit : x ≡ 48 = ground arith in
      rw e (
        ap (λ l. l ++ strip (y ∷ ys))
          (replicate-suc (suc (suc (length ys)) - length (strip (y ∷ ys)))
            (suc (length ys) - length (strip (y ∷ ys))) (omega (arith, length-strip (y ∷ ys))))
        ∙ ap₂ ◌∷◌ (sym zero_digit) (put_number-strip (y ∷ ys)))
  | inr e ↦
      let none_left : suc (suc (length ys)) - suc (suc (length ys)) ≡ 0 = omega arith in
      rw e (ap (λ n. replicate {A = ℕ} n 48 ++ x ∷ y ∷ ys) none_left)
]

length-hex_digits : (k n : ℕ) → length (hex_digits k n) ≡ 2 * k
length-hex_digits zero n = refl
length-hex_digits (suc k) n = omega (arith, length-hex_digits k n)

string-hex_digits :
    (d : NodeData) → string d ≡ hex_digits 8 d.p1 ++ (hex_digits 8 d.p2 ++ hex_digits 4 d.p3)
unfolding string
string-hex_digits d =
    ap₂ ◌++◌ (put_number-strip (hex_digits 8 d.p1))
      (ap₂ ◌++◌ (put_number-strip (hex_digits 8 d.p2)) (put_number-strip (hex_digits 4 d.p3)))

module _ (read_hex : Buffer → ℕ) (reads : IsHexReader read_hex) where
  read_pairs-hex_digits :
      (k n : ℕ) (rest : Buffer)
      → read_pairs read_hex (hex_digits k n ++ rest) ≡ be_bytes k n ++ read_pairs read_hex rest
  unfolding read_pairs
  read_pairs-hex_digits zero n rest = refl
  read_pairs-hex_digits (suc k) n rest =
      ap₂ ◌∷◌ (pair (n / 256 ^ k)) (read_pairs-hex_digits k n rest)
    where
      pair :
          (m : ℕ) → read_hex (hex_digit (m / 16 % 16) ∷ hex_digit (m % 16) ∷ []) % 2 ^ 8 ≡ m % 256
      pair m =
          ap (λ v. v % 2 ^ 8) (reads (m / 16 % 16) (m % 16) (omega arith) (omega arith))
          ∙ omega arith

  -- The hexadecimal form of an identifier is parsed as the bytes that `write` gives.
  pub parse_id_from_hex-string :
      (d : NodeData) → parse_id_from_hex read_hex (string d) ≡ returns (write d)
  unfolding parse_id_from_hex
  parse_id_from_hex-string d =
      ap (parse_id_from_hex read_hex) (string-hex_digits d) ∙ ap returns (pairs ∙ sym (write_lem d))
    where
      pairs :
          read_pairs read_hex (hex_digits 8 d.p1 ++ (hex_digits 8 d.p2 ++ hex_digits 4 d.p3))
          ≡ be_bytes 8 d.p1 ++ (be_bytes 8 d.p2 ++ be_bytes 4 d.p3)
      pairs =
          read_pairs-hex_digits 8 d.p1 (hex_digits 8 d.p2 ++ hex_digits 4 d.p3)
          ∙ ap (λ l. be_bytes 8 d.p1 ++ l)
              (read_pairs-hex_digits 8 d.p2 (hex_digits 4 d.p3)
                ∙ ap (λ l. be_bytes 8 d.p2 ++ l)
                    (ap (read_pairs read_hex) (sym (append-nil (hex_digits 4 d.p3)))
                      ∙ read_pairs-hex_digits 4 d.p3 []
                      ∙ unfold read_pairs in append-nil (be_bytes 4 d.p3)))
