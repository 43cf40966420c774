-- ===== src/Bencode/Encoder.antt =====
-- torrentsync/dht/message/BEncodeEncoder.h and BEncodeEncoder.cpp: an encoder that writes into a
-- buffer which it lets grow.
pub mod Chain
pub mod Content
pub mod Contract
pub mod Elements
pub mod Overflow
pub mod Refinement
use torrent_sync.Common.{
  ℕ, zero, suc, ◌+◌, ◌*◌, ◌/◌, ◌-◌, Bool, true, false, ◌&&◌, ◌||◌, not, ltb, ◌==◌, if◌then◌else◌,
  List, [], ◌∷◌, ◌++◌, length, take, replicate, Outcome, returns, throws, aborts, undefined,
  logic_error, assert, ◌>>=◌, ◌>>◌,
}
use torrent_sync.NodeData.Codec.{Buffer}
use torrent_sync.Bencode.{dictionary_mark, list_mark, end_mark, separator}
use torrent_sync.Bencode.Boost.{Boost}

pub record Encoder : Type 0 where
  pub used_bytes : ℕ
  pub result : Buffer
  pub last_key : Buffer

unfoldable pub make_encoder : Encoder
make_encoder = record { used_bytes = 0; result = replicate 1024 0; last_key = [] }

-- `result.resize( size )`.
unfoldable pub resize : ℕ → Buffer → Buffer
resize size bs = take size bs ++ replicate (size - length bs) 0

unfoldable pub check_and_expand : ℕ → Encoder → Encoder
unfolding resize
check_and_expand add s =
    if ltb (length s.result) (s.used_bytes + add)
    then record s { result = resize ((length s.result / 1024 + 1) * 1024) s.result }
    else s

-- `std::copy( …, result.begin()+i )`; what goes past the end of the buffer is undefined.
unfoldable pub copy_to : ℕ → Buffer → Buffer → Outcome Buffer
copy_to zero [] rs = returns rs
copy_to zero (x ∷ xs) [] = undefined
copy_to zero (x ∷ xs) (r ∷ rs) = copy_to zero xs rs >>= λ copied. returns (x ∷ copied)
copy_to (suc i) xs [] = undefined
copy_to (suc i) xs (r ∷ rs) = copy_to i xs rs >>= λ copied. returns (r ∷ copied)

-- A copy to the end of the used bytes, which are then more; `result[used_bytes++] = c` too.
unfoldable pub store : Buffer → Encoder → Outcome Encoder
unfolding copy_to
store xs s = copy_to s.used_bytes xs s.result >>= λ copied.
    returns (record s { used_bytes = s.used_bytes + length xs; result = copied })

unfoldable pub put_mark : ℕ → Encoder → Outcome Encoder
unfolding check_and_expand store
put_mark c s = store (c ∷ []) (check_and_expand 1 s)

unfoldable pub start_list : Encoder → Outcome Encoder
unfolding put_mark
start_list s = put_mark list_mark s

unfoldable pub end_list : Encoder → Outcome Encoder
unfolding put_mark
end_list s = put_mark end_mark s

unfoldable pub start_dictionary : Encoder → Outcome Encoder
unfolding put_mark
start_dictionary s = put_mark dictionary_mark s

unfoldable pub end_dictionary : Encoder → Outcome Encoder
unfolding put_mark
end_dictionary s = put_mark end_mark (record s { last_key = [] })

abbrev pub is_empty : Buffer → Bool
is_empty [] = true
is_empty (x ∷ xs) = false

-- The numeral of the length, a separator and the bytes; an empty element is refused.
unfoldable pub add_element : Boost → Buffer → Encoder → Outcome Encoder
unfolding check_and_expand store
add_element boost bytes s = do
  assert (not (is_empty bytes))
  let length_string = boost.to_string (length bytes)
  s1 ← store length_string (check_and_expand (length length_string + 1 + 1 + length bytes) s)
  s2 ← store (separator ∷ []) s1
  store bytes s2

-- `std::lexicographical_compare`. All keys of the program are ASCII, so that the signs of the
-- characters do not matter.
unfoldable pub lexicographical_compare : Buffer → Buffer → Bool
lexicographical_compare xs [] = false
lexicographical_compare [] (y ∷ ys) = true
lexicographical_compare (x ∷ xs) (y ∷ ys) =
    ltb x y || (not (ltb y x) && lexicographical_compare xs ys)

unfoldable pub add_dictionary_element : Boost → Buffer → Buffer → Encoder → Outcome Encoder
unfolding add_element lexicographical_compare
add_dictionary_element boost key bytes s =
    if not (is_empty s.last_key) && lexicographical_compare key s.last_key
    then throws logic_error
    else (add_element boost key s >>= λ s1.
        add_element boost bytes s1 >>= λ s2. returns (record s2 { last_key = key }))

-- The loop of `addList`.
unfoldable pub add_elements : Boost → List Buffer → Encoder → Outcome Encoder
unfolding add_element
add_elements boost [] s = returns s
add_elements boost (x ∷ xs) s = add_element boost x s >>= λ s1. add_elements boost xs s1

unfoldable pub add_list : Boost → List Buffer → Encoder → Outcome Encoder
unfolding start_list add_elements end_list
add_list boost xs s = start_list s >>= λ s1. add_elements boost xs s1 >>= λ s2. end_list s2

-- `value()`, which also cuts the buffer of the encoder.
unfoldable pub value : Encoder → Buffer × Encoder
unfolding resize
value s = let cut = resize s.used_bytes s.result in (cut, record s { result = cut })
