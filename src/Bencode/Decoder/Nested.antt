-- ===== src/Bencode/Decoder/Nested.antt =====
-- The loop of the decoder on dictionaries that hold other dictionaries to any depth.
use mathlib.Core.List.{append_assoc}
use torrent_sync.Common.{
  ◌∙◌, ap, ℕ, suc, ◌+◌, ◌-◌, ◌≤◌, ◌≡◌, ◌≢◌, refl, false, some, List, [], ◌∷◌, ◌++◌, length,
  length-append, returns, arith,
}
use torrent_sync.NodeData.Codec.{Buffer}
use torrent_sync.Bencode.{separator, dictionary_mark, end_mark}
use torrent_sync.Bencode.Boost.{Boost, IsBoost}
use torrent_sync.Bencode.Encoder.{is_empty}
use torrent_sync.Bencode.Encoder.Elements.{element}
use torrent_sync.Bencode.Stream.{make_stream}
use torrent_sync.Bencode.Decoder.{
  DataMap, insert, StackEntry, Decoder, make_decoder, back, pop_back, path,
}
use torrent_sync.Bencode.Decoder.Parse.{Reserve, no_entries, parse_loop, decode}
use torrent_sync.Bencode.Decoder.Rounds.{
  round-entry, round-key, round-begin, round-end, next_round, last_round,
}
use torrent_sync.Bencode.Decoder.Entries.{
  Entries, no_entry, string_under, dictionary_under, encoded, dictionary_bytes, flatten_entries,
  IsReadable,
}

-- The rounds that the entries take.
abbrev rounds : Entries → ℕ → ℕ
rounds no_entry fuel = fuel
rounds (string_under key bytes es) fuel = suc (rounds es fuel)
rounds (dictionary_under key inner es) fuel = suc (suc (rounds inner (suc (rounds es fuel))))

abbrev count : Entries → ℕ
count no_entry = 0
count (string_under key bytes es) = 1 + count es
count (dictionary_under key inner es) = 3 + count inner + count es

rounds-count : (es : Entries) (fuel : ℕ) → rounds es fuel ≡ count es + fuel
rounds-count no_entry fuel = omega arith
rounds-count (string_under key bytes es) fuel = omega (arith, rounds-count es fuel)
rounds-count (dictionary_under key inner es) fuel =
    omega (arith, rounds-count inner (suc (rounds es fuel)), rounds-count es fuel)

-- The last token of the decoder behind the entries.
abbrev token_after : Entries → Buffer → Buffer
token_after no_entry token = token
token_after (string_under key bytes es) token = token_after es token
token_after (dictionary_under key inner es) token = token_after es (token_after inner key)

abbrev decoder_at : List StackEntry → Buffer → DataMap → Decoder
decoder_at stack token m = record {
  structure_stack = stack;
  list_counter = 0;
  last_token = token;
  data_map = m;
}

pop_back-append : (stack : List StackEntry) (x : StackEntry) → pop_back (stack ++ x ∷ []) ≡ stack
pop_back-append [] x = refl
pop_back-append (y ∷ []) x = refl
pop_back-append (y ∷ z ∷ stack) x = ap (λ s. y ∷ s) (pop_back-append (z ∷ stack) x)

back-append : (stack : List StackEntry) (x : StackEntry) → back (stack ++ x ∷ []) ≡ some x
back-append [] x = refl
back-append (y ∷ []) x = refl
back-append (y ∷ z ∷ stack) x = back-append (z ∷ stack) x

no_entries-back :
    (stack : List StackEntry) {x : StackEntry} → back stack ≡ some x → no_entries stack ≡ false
no_entries-back [] e = cc
no_entries-back (y ∷ stack) e = refl

is_empty-append : (xs ys : Buffer) → ys ≢ [] → is_empty (xs ++ ys) ≡ false
is_empty-append [] [] h = absurd (h refl)
is_empty-append [] (y ∷ ys) h = refl
is_empty-append (x ∷ xs) ys h = refl

-- A dictionary under a key has the path of the key.
path-append :
    (before key : Buffer) (stack : List StackEntry)
    → key ≢ []
    → path before (stack ++ (key, false) ∷ []) ≡ path before stack ++ (key ++ 47 ∷ [])
path-append before key [] h = rw (is_empty-append before key h) (append_assoc before key (47 ∷ []))
path-append before key (x ∷ stack) h = path-append _ key stack h

module _ (boost : Boost) (b : IsBoost boost) (reserve : Reserve) where
  length-element : (bytes : Buffer) → 1 ≤ length (element boost bytes)
  length-element bytes =
      omega (arith, length-append (boost.to_string (length bytes)) (separator ∷ bytes))

  length-encoded :
      (es : Entries) (rest : Buffer) → count es + length rest ≤ length (encoded boost es rest)
  length-encoded no_entry rest = omega arith
  length-encoded (string_under key bytes es) rest = omega (
    arith,
    length-encoded es rest,
    length-element key,
    length-append (element boost key) (element boost bytes ++ encoded boost es rest),
    length-append (element boost bytes) (encoded boost es rest),
  )
  length-encoded (dictionary_under key inner es) rest = omega (
    arith,
    length-encoded es rest,
    length-encoded inner (end_mark ∷ encoded boost es rest),
    length-element key,
    length-append (element boost key)
        (dictionary_mark ∷ encoded boost inner (end_mark ∷ encoded boost es rest)),
  )

  -- The end of a dictionary under a key.
  end_of_dictionary :
      (fuel : ℕ) (stack : List StackEntry) (key token rest : Buffer) (m : DataMap) {x : StackEntry}
      → back stack ≡ some x
      → parse_loop boost reserve
          (suc fuel)
          (decoder_at (stack ++ (key, false) ∷ []) token m)
          (make_stream (end_mark ∷ rest))
        ≡ parse_loop boost reserve fuel (decoder_at stack token m) (make_stream rest)
  end_of_dictionary fuel stack key token rest m top =
      next_round boost b reserve fuel (decoder_at (stack ++ (key, false) ∷ []) token m)
        (decoder_at stack token m) (end_mark ∷ rest) (make_stream rest)
        (round-end boost b reserve (decoder_at (stack ++ (key, false) ∷ []) token m) key rest
            (back-append stack (key, false))
          ∙ rw (pop_back-append stack (key, false), no_entries-back stack top) refl)

  loop_entries :
      (es : Entries) (fuel : ℕ) (stack : List StackEntry) (name token rest : Buffer) (m : DataMap)
      → IsReadable reserve es
      → back stack ≡ some (name, false)
      → parse_loop boost reserve
          (rounds es fuel)
          (decoder_at stack token m)
          (make_stream (encoded boost es rest))
        ≡ parse_loop boost reserve fuel
            (decoder_at stack (token_after es token) (flatten_entries (path [] stack) es m))
            (make_stream rest)
  loop_entries no_entry fuel stack name token rest m h top = refl
  loop_entries (string_under key bytes es) fuel stack name token rest m h top =
      let (k, v, hs) = h in
      next_round boost b reserve (rounds es fuel) (decoder_at stack token m)
        (decoder_at stack token (insert (path [] stack ++ key) bytes m))
        (encoded boost (string_under key bytes es) rest) (make_stream (encoded boost es rest))
        (round-entry boost b reserve (decoder_at stack token m) name key bytes
          (encoded boost es rest) top k.0 k.1 v.0 v.1)
      ∙ loop_entries es fuel stack name token rest (insert (path [] stack ++ key) bytes m) hs top
  loop_entries (dictionary_under key inner es) fuel stack name token rest m h top =
      let (some_key, k, hi, hs) = h in
      next_round boost b reserve (suc (rounds inner (suc (rounds es fuel))))
        (decoder_at stack token m) (decoder_at stack key m)
        (encoded boost (dictionary_under key inner es) rest)
        (make_stream (dictionary_mark ∷ inner_bytes))
        (round-key boost b reserve (decoder_at stack token m) name key inner_bytes top k.0 k.1)
      ∙ next_round boost b reserve (rounds inner (suc (rounds es fuel))) (decoder_at stack key m)
          (decoder_at under_key key m) (dictionary_mark ∷ inner_bytes) (make_stream inner_bytes)
          (round-begin boost b reserve (decoder_at stack key m) inner_bytes)
      ∙ loop_entries inner (suc (rounds es fuel)) under_key key key (end_mark ∷ others_bytes) m hi
          (back-append stack (key, false))
      ∙ ap
          (λ p.
            parse_loop boost reserve (suc (rounds es fuel))
              (decoder_at under_key (token_after inner key) (flatten_entries p inner m))
              (make_stream (end_mark ∷ others_bytes)))
          (path-append [] key stack some_key)
      ∙ end_of_dictionary (rounds es fuel) stack key (token_after inner key) others_bytes inner_map
          top
      ∙ loop_entries es fuel stack name (token_after inner key) rest inner_map hs top
    where
      others_bytes : Buffer
      others_bytes = encoded boost es rest

      inner_bytes : Buffer
      inner_bytes = encoded boost inner (end_mark ∷ others_bytes)

      under_key : List StackEntry
      under_key = stack ++ (key, false) ∷ []

      inner_map : DataMap
      inner_map = flatten_entries (path [] stack ++ (key ++ 47 ∷ [])) inner m

  pub decode-dictionary_bytes :
      (es : Entries)
      → IsReadable reserve es
      → decode boost reserve (dictionary_bytes boost es) ≡ some (returns (flatten_entries [] es []))
  decode-dictionary_bytes es h =
      unfold decode in
      (ap
          (λ fuel.
            parse_loop boost reserve fuel make_decoder (make_stream (dictionary_bytes boost es)))
          enough
        ∙ next_round boost b reserve (rounds es (suc spare)) make_decoder
            (decoder_at (([], false) ∷ []) [] []) (dictionary_bytes boost es)
            (make_stream (encoded boost es (end_mark ∷ [])))
            (round-begin boost b reserve make_decoder (encoded boost es (end_mark ∷ [])))
        ∙ loop_entries es (suc spare) (([], false) ∷ []) [] [] (end_mark ∷ []) [] h refl
        ∙ last_round boost b reserve spare
            (decoder_at (([], false) ∷ []) (token_after es []) (flatten_entries [] es []))
            (decoder_at [] (token_after es []) (flatten_entries [] es [])) (end_mark ∷ [])
            (make_stream [])
            (round-end boost b reserve
              (decoder_at (([], false) ∷ []) (token_after es []) (flatten_entries [] es [])) [] []
              refl))
    where
      spare : ℕ
      spare = suc (length (encoded boost es (end_mark ∷ []))) - count es

      enough : suc (suc (length (dictionary_bytes boost es))) ≡ suc (rounds es (suc spare))
      enough = omega (arith, rounds-count es (suc spare), length-encoded es (end_mark ∷ []))
