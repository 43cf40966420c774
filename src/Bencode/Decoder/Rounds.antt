-- ===== src/Bencode/Decoder/Rounds.antt =====
-- The rounds of the decoder's loop on what the encoder writes.
use torrent_sync.Common.{
  ◌∙◌, ℕ, suc, ◌^◌, ◌<◌, ◌≡◌, ◌≢◌, refl, true, false, ◌==◌, some, [], ◌∷◌, ◌++◌, length, returns,
  arith,
}
use torrent_sync.NodeData.Codec.{Buffer}
use torrent_sync.Bencode.{separator, is_digit, dictionary_mark, end_mark, list_mark}
use torrent_sync.Bencode.Boost.{Boost, IsBoost}
use torrent_sync.Bencode.Encoder.Elements.{element}
use torrent_sync.Bencode.Stream.{Stream, make_stream, peek, peek_at, ignore, ignore_at}
use torrent_sync.Bencode.Decoder.{insert, Decoder, back, pop_back, path, c_string}
use torrent_sync.Bencode.Decoder.Reading.{read_element-element, read_value-element, IsDigits}
use torrent_sync.Bencode.Decoder.Parse.{
  Reserve, round, dispatch, entry, entry_of, end_of, dictionary_entry, value_of_key,
  begin_dictionary, end_structure, no_entries, counter_after, continue_with, parse_loop,
}

-- A list that begins with a digit.
record Digit (bytes : Buffer) : Type 0 where
  first : ℕ
  others : Buffer
  begins : bytes ≡ first ∷ others
  digit : is_digit first ≡ true

element-Digit :
    (boost : Boost) → IsBoost boost → (bytes rest : Buffer) → Digit (element boost bytes ++ rest)
element-Digit boost b bytes rest =
    go (boost.to_string (length bytes)) (b.some_digit (length bytes)) (b.digits (length bytes))
  where
    go : (ds : Buffer) → ds ≢ [] → IsDigits ds → Digit ((ds ++ separator ∷ bytes) ++ rest)
    go [] some_digit h = absurd (some_digit refl)
    go (d ∷ ds) some_digit h = record {
      first = d;
      others = (ds ++ separator ∷ bytes) ++ rest;
      begins = refl;
      digit = h.0;
    }

-- A digit at the front of the stream belongs to an entry.
round-Digit :
    (boost : Boost) (reserve : Reserve) (d : Decoder) (bytes : Buffer)
    → Digit bytes
    → round boost reserve d (make_stream bytes) ≡ entry boost reserve d (make_stream bytes)
round-Digit boost reserve d bytes g =
    let no_dictionary : (g.first == dictionary_mark) ≡ false = ground (arith, g.digit) in
    let no_list : (g.first == list_mark) ≡ false = ground (arith, g.digit) in
    let no_end : (g.first == end_mark) ≡ false = ground (arith, g.digit) in
    rw g.begins (unfold round peek peek_at dispatch in rw (no_dictionary, no_list, no_end) refl)

module _ (boost : Boost) (b : IsBoost boost) (reserve : Reserve) where
  -- A key and its value in a dictionary.
  pub round-entry :
      (d : Decoder) (name key bytes rest : Buffer)
      → back d.structure_stack ≡ some (name, false)
      → length key < 2 ^ 31
      → c_string key ≡ key
      → length bytes < 2 ^ 64
      → reserve (length bytes) ≡ returns tt
      → round boost reserve d (make_stream (element boost key ++ (element boost bytes ++ rest)))
        ≡ returns (
          false,
          (
            record d { data_map = insert (path [] d.structure_stack ++ key) bytes d.data_map },
            make_stream rest,
          ),
        )
  round-entry d name key bytes rest in_dictionary short no_zero small room =
      round-Digit boost reserve d (element boost key ++ (element boost bytes ++ rest))
        (element-Digit boost b key (element boost bytes ++ rest))
      ∙ unfold entry entry_of dictionary_entry in
        rw
          (
            in_dictionary,
            read_element-element boost b key (element boost bytes ++ rest) short no_zero,
          )
          (value (element-Digit boost b bytes rest))
    where
      value :
          Digit (element boost bytes ++ rest)
          → value_of_key reserve key d (make_stream (element boost bytes ++ rest))
            ≡ returns (
              false,
              (
                record d { data_map = insert (path [] d.structure_stack ++ key) bytes d.data_map },
                make_stream rest,
              ),
            )
      value g =
          let peeked : peek (make_stream (element boost bytes ++ rest))
              ≡ (some g.first, make_stream (element boost bytes ++ rest)) =
            rw g.begins (unfold peek peek_at in refl) in
          let no_list : (g.first == list_mark) ≡ false = ground (arith, g.digit) in
          let no_dictionary : (g.first == dictionary_mark) ≡ false = ground (arith, g.digit) in
          unfold value_of_key in
          rw
            (
              peeked,
              no_list,
              no_dictionary,
              read_value-element boost b reserve bytes rest small room,
            )
            refl

  -- A key before a dictionary.
  pub round-key :
      (d : Decoder) (name key rest : Buffer)
      → back d.structure_stack ≡ some (name, false)
      → length key < 2 ^ 31
      → c_string key ≡ key
      → round boost reserve d (make_stream (element boost key ++ dictionary_mark ∷ rest))
        ≡ returns (false, (record d { last_token = key }, make_stream (dictionary_mark ∷ rest)))
  round-key d name key rest in_dictionary short no_zero =
      round-Digit boost reserve d (element boost key ++ dictionary_mark ∷ rest)
        (element-Digit boost b key (dictionary_mark ∷ rest))
      ∙ unfold entry entry_of dictionary_entry in
        rw (in_dictionary, read_element-element boost b key (dictionary_mark ∷ rest) short no_zero)
          (unfold value_of_key peek peek_at in refl)

  pub round-begin :
      (d : Decoder) (rest : Buffer)
      → round boost reserve d (make_stream (dictionary_mark ∷ rest))
        ≡ returns (
          false,
          (
            record d { structure_stack = d.structure_stack ++ (d.last_token, false) ∷ [] },
            make_stream rest,
          ),
        )
  unfolding round peek peek_at dispatch begin_dictionary ignore ignore_at
  round-begin d rest = refl

  pub round-end :
      (d : Decoder) (name rest : Buffer)
      → back d.structure_stack ≡ some (name, false)
      → round boost reserve d (make_stream (end_mark ∷ rest))
        ≡ returns (
          no_entries (pop_back d.structure_stack),
          (
            record d { structure_stack = pop_back d.structure_stack; list_counter = 0 },
            make_stream rest,
          ),
        )
  unfolding round peek peek_at dispatch end_structure ignore ignore_at counter_after
  round-end d name rest in_dictionary = unfold end_of in rw in_dictionary refl

  -- A round that does not end the parsing leads to the next one.
  pub next_round :
      (fuel : ℕ) (d d' : Decoder) (bytes : Buffer) (s' : Stream)
      → round boost reserve d (make_stream bytes) ≡ returns (false, (d', s'))
      → parse_loop boost reserve (suc fuel) d (make_stream bytes)
        ≡ parse_loop boost reserve fuel d' s'
  next_round fuel d d' bytes s' e = unfold parse_loop in rw e (unfold continue_with in refl)

  pub last_round :
      (fuel : ℕ) (d d' : Decoder) (bytes : Buffer) (s' : Stream)
      → round boost reserve d (make_stream bytes) ≡ returns (true, (d', s'))
      → parse_loop boost reserve (suc fuel) d (make_stream bytes) ≡ some (returns d'.data_map)
  last_round fuel d d' bytes s' e = unfold parse_loop in rw e (unfold continue_with in refl)
