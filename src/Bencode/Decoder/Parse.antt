-- ===== src/Bencode/Decoder/Parse.antt =====
-- `BEncodeDecoder::parseMessage`.
use torrent_sync.Common.{
  ℕ, zero, suc, ◌+◌, ◌-◌, ◌^◌, Bool, true, false, ◌&&◌, ◌||◌, ltb, ◌==◌, if◌then◌else◌, Option,
  none, some, List, [], ◌∷◌, ◌++◌, length, Outcome, returns, throws, aborts, undefined,
  runtime_error, ◌>>=◌,
}
use torrent_sync.NodeData.Codec.{Buffer}
use torrent_sync.Bencode.{dictionary_mark, list_mark, end_mark, is_digit}
use torrent_sync.Bencode.Boost.{Boost}
use torrent_sync.Bencode.Stream.{Stream, make_stream, good, peek, ignore}
use torrent_sync.Bencode.Decoder.{
  DataMap, insert, StackEntry, Decoder, make_decoder, back, pop_back, path, read_element,
  read_value,
}

abbrev pub Reserve : Type 0
Reserve = ℕ → Outcome (Unit {0})

abbrev pub all_digits : Buffer → Bool
all_digits [] = true
all_digits (c ∷ cs) = is_digit c && all_digits cs

-- The counter after the end of a list that was begun under a name; a cast that throws gives 0.
-- One more than the largest `int` is undefined.
unfoldable pub next_counter : Option ℕ → Outcome ℕ
next_counter none = returns 0
next_counter (some n) = if n == 2 ^ 31 - 1 then undefined else returns (n + 1)

unfoldable pub counter_after : Boost → StackEntry → Outcome ℕ
unfolding next_counter
counter_after boost (name, is_list) =
    if is_list && all_digits name then next_counter (boost.to_int name) else returns 0

-- A round of the loop gives whether the parsing has ended, with the variables and the stream.
abbrev pub Round : Type 0
Round = Bool × (Decoder × Stream)

unfoldable pub begin_dictionary : Decoder → Stream → Outcome Round
begin_dictionary d s = returns (
  false,
  (record d { structure_stack = d.structure_stack ++ (d.last_token, false) ∷ [] }, ignore s),
)

unfoldable pub begin_list : Boost → Decoder → Stream → Outcome Round
begin_list boost d s =
    let token = if ltb 0 d.list_counter then boost.to_string d.list_counter else d.last_token in
    returns (
      false,
      (
        record d {
          structure_stack = d.structure_stack ++ (token, true) ∷ [];
          list_counter = 0;
          last_token = token;
        },
        ignore s,
      ),
    )

abbrev pub no_entries : List StackEntry → Bool
no_entries [] = true
no_entries (entry ∷ entries) = false

-- The end of the structure at the back of the stack.
unfoldable pub end_of : Boost → Option StackEntry → Decoder → Stream → Outcome Round
unfolding counter_after
end_of boost none d s = throws runtime_error
end_of boost (some structure) d s = counter_after boost structure >>= λ counter.
    let entries = pop_back d.structure_stack in
    returns (
      no_entries entries,
      (record d { structure_stack = entries; list_counter = counter }, ignore s),
    )

unfoldable pub end_structure : Boost → Decoder → Stream → Outcome Round
unfolding end_of
end_structure boost d s = end_of boost (back d.structure_stack) d s

-- Whether the next character begins a structure.
abbrev pub begins_structure : Option ℕ → Bool
begins_structure none = false
begins_structure (some c) = c == list_mark || c == dictionary_mark

unfoldable pub value_of_key : Reserve → Buffer → Decoder → Stream → Outcome Round
value_of_key reserve key d s =
    let next = peek s in
    if begins_structure next.0
    then returns (false, (record d { last_token = key }, next.1))
    else (read_value reserve next.1 >>= λ r. returns (
      false,
      (record d { data_map = insert (path [] d.structure_stack ++ key) r.0 d.data_map }, r.1),
    ))

unfoldable pub dictionary_entry : Reserve → Decoder → Stream → Outcome Round
unfolding value_of_key
dictionary_entry reserve d s = read_element s >>= λ r. value_of_key reserve r.0 d r.1

unfoldable pub list_entry : Boost → Reserve → Decoder → Stream → Outcome Round
list_entry boost reserve d s = read_value reserve s >>= λ r. returns (
  false,
  (
    record d {
      data_map =
          insert (path [] d.structure_stack ++ boost.to_string d.list_counter) r.0 d.data_map;
      list_counter = d.list_counter + 1;
    },
    r.1,
  ),
)

-- An entry of the structure at the back of the stack.
unfoldable pub entry_of : Boost → Reserve → Option StackEntry → Decoder → Stream → Outcome Round
unfolding dictionary_entry list_entry
entry_of boost reserve none d s = throws runtime_error
entry_of boost reserve (some (name, true)) d s = list_entry boost reserve d s
entry_of boost reserve (some (name, false)) d s = dictionary_entry reserve d s

unfoldable pub entry : Boost → Reserve → Decoder → Stream → Outcome Round
unfolding entry_of
entry boost reserve d s = entry_of boost reserve (back d.structure_stack) d s

unfoldable pub dispatch : Boost → Reserve → Option ℕ → Decoder → Stream → Outcome Round
unfolding begin_dictionary begin_list end_structure entry
dispatch boost reserve none d s = entry boost reserve d s
dispatch boost reserve (some c) d s =
    if c == dictionary_mark
    then begin_dictionary d s
    else if c == list_mark
    then begin_list boost d s
    else if c == end_mark
    then end_structure boost d s
    else entry boost reserve d s

unfoldable pub round : Boost → Reserve → Decoder → Stream → Outcome Round
unfolding dispatch
round boost reserve d s =
    let next = peek s in
    if good s then dispatch boost reserve next.0 d next.1 else throws runtime_error

-- What follows a round: the end of the loop, the next round, or an exception.
unfoldable pub continue_with :
    (Decoder → Stream → Option (Outcome DataMap)) → Outcome Round → Option (Outcome DataMap)
continue_with next (returns (true, (d, s))) = some (returns d.data_map)
continue_with next (returns (false, (d, s))) = next d s
continue_with next (throws e) = some (throws e)
continue_with next aborts = some aborts
continue_with next undefined = some undefined

-- The loop, on fuel; `none` is a loop without fuel left.
unfoldable pub parse_loop : Boost → Reserve → ℕ → Decoder → Stream → Option (Outcome DataMap)
unfolding round continue_with
parse_loop boost reserve zero d s = none
parse_loop boost reserve (suc fuel) d s =
    if s.at_end
    then some (throws runtime_error)
    else continue_with (parse_loop boost reserve fuel) (round boost reserve d s)

-- `parseMessage` on a stream of these bytes, and `getData`.
unfoldable pub decode : Boost → Reserve → Buffer → Option (Outcome DataMap)
unfolding parse_loop
decode boost reserve bytes =
    parse_loop boost reserve (suc (suc (length bytes))) make_decoder (make_stream bytes)
