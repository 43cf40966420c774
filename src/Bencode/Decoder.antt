-- ===== src/Bencode/Decoder.antt =====
-- torrentsync/dht/message/BEncodeDecoder.h and BEncodeDecoder.cpp: a decoder that flattens nested
-- dictionaries and lists into a map from paths to values.
pub mod Parse
pub mod Reading
pub mod Rounds
pub mod Entries
pub mod Nested
pub mod Shrinking
pub mod Termination
use torrent_sync.Common.{
  ℕ, zero, suc, ◌+◌, ◌-◌, ◌*◌, ◌%◌, ◌^◌, Bool, true, false, ◌&&◌, ◌||◌, not, ltb, leb, ◌==◌,
  if◌then◌else◌, Option, none, some, List, [], ◌∷◌, ◌++◌, length, Outcome, returns, throws, aborts,
  undefined, runtime_error, ◌>>=◌, ◌>>◌,
}
use torrent_sync.NodeData.Codec.{Buffer}
use torrent_sync.Bencode.{dictionary_mark, list_mark, end_mark, separator, is_digit}
use torrent_sync.Bencode.Boost.{Boost}
use torrent_sync.Bencode.Stream.{
  Stream, make_stream, good, fail, peek, get, ignore, read, extract, is_empty,
}

-- `std::string::operator==`.
unfoldable pub same_string : Buffer → Buffer → Bool
same_string [] [] = true
same_string [] (y ∷ ys) = false
same_string (x ∷ xs) [] = false
same_string (x ∷ xs) (y ∷ ys) = x == y && same_string xs ys

-- The map has no order: here its entries stand in the order of their insertion.
abbrev pub DataMap : Type 0
DataMap = List (Buffer × Buffer)

unfoldable pub find_in : Buffer → DataMap → Option Buffer
unfolding same_string
find_in key [] = none
find_in key (entry ∷ data_map) =
    if same_string entry.0 key then some entry.1 else find_in key data_map

-- `std::unordered_map::insert` keeps an entry that is there.
unfoldable pub insert : Buffer → Buffer → DataMap → DataMap
unfolding same_string
insert key bytes [] = (key, bytes) ∷ []
insert key bytes (entry ∷ data_map) =
    if same_string entry.0 key then entry ∷ data_map else entry ∷ insert key bytes data_map

-- `LIST` is true and `DICTIONARY` is false.
abbrev pub StackEntry : Type 0
StackEntry = Buffer × Bool

-- The variables of `parseMessage`; the end of the list is the back of the vector.
pub record Decoder : Type 0 where
  pub structure_stack : List StackEntry
  pub list_counter : ℕ
  pub last_token : Buffer
  pub data_map : DataMap

abbrev pub make_decoder : Decoder
make_decoder = record { structure_stack = []; list_counter = 0; last_token = []; data_map = [] }

abbrev pub back : List StackEntry → Option StackEntry
back [] = none
back (entry ∷ []) = some entry
back (entry ∷ next ∷ entries) = back (next ∷ entries)

abbrev pub pop_back : List StackEntry → List StackEntry
pop_back [] = []
pop_back (entry ∷ []) = []
pop_back (entry ∷ next ∷ entries) = entry ∷ pop_back (next ∷ entries)

-- The names of the stack, each with a slash behind it once there is something before the slash.
abbrev pub path : Buffer → List StackEntry → Buffer
path before [] = before
path before (entry ∷ entries) =
    let joined = before ++ entry.0 in
    path (if is_empty joined then joined else joined ++ 47 ∷ []) entries

-- A `char` array read as a string ends at the first zero.
abbrev pub c_string : Buffer → Buffer
c_string [] = []
c_string (c ∷ cs) = if c == 0 then [] else c ∷ c_string cs

-- The separator behind a number.
abbrev pub is_separator : Option ℕ → Bool
is_separator none = false
is_separator (some c) = c == separator

-- A number in the range of its type, or else a failed stream.
unfoldable pub ranged : (Bool → ℕ → Bool) → Option (Bool × ℕ) × Stream → Option (Bool × ℕ) × Stream
ranged fits (none, s) = (none, fail s)
ranged fits (some (negative, n), s) =
    if fits negative n then (some (negative, n), s) else (none, fail s)

abbrev pub fits_int : Bool → ℕ → Bool
fits_int negative n = if negative then leb n (2 ^ 31) else ltb n (2 ^ 31)

abbrev pub fits_size : Bool → ℕ → Bool
fits_size negative n = ltb n (2 ^ 64)

-- The checks behind a number: the stream is good, and a separator comes next.
unfoldable pub check_length : Option (Bool × ℕ) → Option ℕ × Stream → Outcome ((Bool × ℕ) × Stream)
check_length none next = throws runtime_error
check_length (some n) next =
    if good next.1 && is_separator next.0 then returns (n, next.1) else throws runtime_error

-- A length and its separator, as both `readElement` and `readValue` begin.
unfoldable pub read_length : (Bool → ℕ → Bool) → Stream → Outcome ((Bool × ℕ) × Stream)
unfolding ranged check_length
read_length fits s = let number = ranged fits (extract s) in check_length number.0 (get number.1)

abbrev pub has_zero : Buffer → Bool
has_zero [] = false
has_zero (c ∷ cs) = c == 0 || has_zero cs

-- The characters of the key, up to the first zero. If the stream is too short and gives no zero,
-- the array is read where nothing was stored, as it is with a negative length, for which there is
-- no array.
unfoldable pub read_string : Bool → ℕ → Stream → Outcome (Buffer × Stream)
read_string true n s = if n == 0 then returns ([], s) else undefined
read_string false n s =
    let characters = read n s in
    if characters.0.1 || has_zero characters.0.0
    then returns (c_string characters.0.0, characters.1)
    else undefined

unfoldable pub read_element : Stream → Outcome (Buffer × Stream)
unfolding read_length read_string
read_element s = read_length fits_int s >>= λ r. read_string r.0.0 r.0.1 r.1

-- `n` rounds of `buffer.push_back(stream.get())`; the end of the file is pushed as 0xFF.
unfoldable pub get_bytes : ℕ → Stream → Buffer × Stream
get_bytes zero s = ([], s)
get_bytes (suc n) s =
    let next = get s in
    let others = get_bytes n next.1 in
    (elim next.0 [ none ↦ 0xFF | some c ↦ c ] ∷ others.0, others.1)

-- A negative length wraps around. `reserve` returns or throws, as the memory allows.
unfoldable pub read_value : (ℕ → Outcome (Unit {0})) → Stream → Outcome (Buffer × Stream)
unfolding read_length get_bytes
read_value reserve s = do
  (number, s1) ← read_length fits_size s
  let length = if number.0 then (2 ^ 64 - number.1) % 2 ^ 64 else number.1
  reserve length
  returns (get_bytes length s1)
