-- ===== src/Bencode/Stream.antt =====
-- `std::istream`, as far as the decoder uses it: the bytes that are left and two of its flags.
use torrent_sync.Common.{
  ℕ, ◌+◌, ◌-◌, ◌*◌, Bool, true, false, ◌&&◌, ◌||◌, not, ltb, ◌==◌, if◌then◌else◌, Option, none,
  some, [], ◌∷◌, length, take, drop,
}
use torrent_sync.NodeData.Codec.{Buffer}
use torrent_sync.Bencode.{is_digit}

-- `at_end` is `eofbit` and `failed` is `failbit`.
pub record Stream : Type 0 where
  pub rest : Buffer
  pub at_end : Bool
  pub failed : Bool

abbrev pub make_stream : Buffer → Stream
make_stream bytes = record { rest = bytes; at_end = false; failed = false }

abbrev pub good : Stream → Bool
good s = not s.at_end && not s.failed

-- An operation on a stream that is not good fails.
abbrev pub fail : Stream → Stream
fail s = record s { failed = true }

-- `none` is the end of the file.
unfoldable pub peek_at : Buffer → Stream → Option ℕ × Stream
peek_at [] s = (none, record s { at_end = true })
peek_at (c ∷ cs) s = (some c, s)

unfoldable pub peek : Stream → Option ℕ × Stream
unfolding peek_at
peek s = if good s then peek_at s.rest s else (none, fail s)

unfoldable pub get_at : Buffer → Stream → Option ℕ × Stream
get_at [] s = (none, record s { at_end = true; failed = true })
get_at (c ∷ cs) s = (some c, record s { rest = cs })

unfoldable pub get : Stream → Option ℕ × Stream
unfolding get_at
get s = if good s then get_at s.rest s else (none, fail s)

unfoldable pub ignore_at : Buffer → Stream → Stream
ignore_at [] s = record s { at_end = true }
ignore_at (c ∷ cs) s = record s { rest = cs }

unfoldable pub ignore : Stream → Stream
unfolding ignore_at
ignore s = if good s then ignore_at s.rest s else fail s

-- `read( buffer, n )`: the characters that were there, and whether they were `n`.
unfoldable pub read : ℕ → Stream → (Buffer × Bool) × Stream
read n s =
    if good s
    then if ltb (length s.rest) n
      then ((s.rest, false), record s { rest = []; at_end = true; failed = true })
      else ((take n s.rest, true), record s { rest = drop n s.rest })
    else (([], false), fail s)

abbrev pub is_space : ℕ → Bool
is_space c = c == 32 || (ltb 8 c && ltb c 14)

unfoldable pub skip_spaces : Buffer → Buffer
skip_spaces [] = []
skip_spaces (c ∷ cs) = if is_space c then skip_spaces cs else c ∷ cs

-- A sign, and the bytes behind it.
unfoldable pub scan_sign : Buffer → Bool × Buffer
scan_sign [] = (false, [])
scan_sign (c ∷ cs) =
    if c == 45 then (true, cs) else if c == 43 then (false, cs) else (false, c ∷ cs)

-- The number that the leading digits denote, after a number that stands before them.
unfoldable pub scan_digits : ℕ → Buffer → ℕ × Buffer
scan_digits n [] = (n, [])
scan_digits n (c ∷ cs) = if is_digit c then scan_digits (n * 10 + (c - 48)) cs else (n, c ∷ cs)

-- Whether a digit comes first.
abbrev pub starts_with_digit : Buffer → Bool
starts_with_digit [] = false
starts_with_digit (c ∷ cs) = is_digit c

abbrev pub is_empty : Buffer → Bool
is_empty [] = true
is_empty (c ∷ cs) = false

-- The bytes behind the spaces: a sign and digits, up to the first other byte.
unfoldable pub extract_at : Buffer → Stream → Option (Bool × ℕ) × Stream
unfolding scan_sign scan_digits
extract_at bytes s =
    let signed = scan_sign bytes in
    let number = scan_digits 0 signed.1 in
    if starts_with_digit signed.1
    then (some (signed.0, number.0), record s { rest = number.1; at_end = is_empty number.1 })
    else (none, record s { rest = signed.1; at_end = is_empty signed.1; failed = true })

-- `stream >> number`, up to the check of the range: the sign and the absolute value.
unfoldable pub extract : Stream → Option (Bool × ℕ) × Stream
unfolding skip_spaces extract_at
extract s =
    let bytes = skip_spaces s.rest in
    if good s
    then if is_empty bytes
      then (none, record s { rest = []; at_end = true; failed = true })
      else extract_at bytes s
    else (none, fail s)
