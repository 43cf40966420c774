-- ===== src/Bencode/Encoder/Elements.antt =====
-- The marks and elements that the encoder writes.
use mathlib.Core.List.{append_assoc, append-nil}
use torrent_sync.Common.{
  ◌∙◌, ap, ℕ, ◌+◌, ◌-◌, ◌≤◌, ◌≡◌, ◌≢◌, refl, true, false, [], ◌∷◌, ◌++◌, length, Outcome, returns,
  not, ◌>>=◌, ◌&&◌, arith,
}
use torrent_sync.NodeData.Codec.{Buffer}
use torrent_sync.Bencode.{separator, dictionary_mark, end_mark}
use torrent_sync.Bencode.Boost.{Boost}
use torrent_sync.Bencode.Encoder
use torrent_sync.Bencode.Encoder.{
  Encoder, make_encoder, check_and_expand, store, put_mark, is_empty, add_element,
  add_dictionary_element, lexicographical_compare, start_dictionary, end_dictionary, resize,
}
use torrent_sync.Bencode.Encoder.Content.{
  content, IsEncoder, Wrote, Expanded, Stored, store-Stored, length-replicate,
  check_and_expand-Expanded,
}

-- The bencoded form of a string of bytes.
abbrev pub element : Boost → Buffer → Buffer
element boost bytes = boost.to_string (length bytes) ++ separator ∷ bytes

-- With the room that `checkAndExpand` asks for, the element fits a block.
abbrev pub Fits : Boost → Buffer → Type 0
Fits boost bytes = length (boost.to_string (length bytes)) + 1 + 1 + length bytes ≤ 1024

expanded_store :
    (add : ℕ) (xs : Buffer) (s : Encoder)
    → IsEncoder s
    → length xs ≤ add
    → add ≤ 1024
    → Wrote s xs (store xs (check_and_expand add s))
expanded_store add xs s v fits small =
    let e = check_and_expand-Expanded add s v small in
    let w =
      (store-Stored xs (check_and_expand add s) e.valid (omega (arith, e.room, fits))).written in
    record {
      after = w.after;
      wrote = w.wrote;
      appended = w.appended ∙ ap (λ l. l ++ xs) e.same_content;
      valid = w.valid;
      same_key = w.same_key ∙ e.same_key;
    }

pub put_mark-Wrote : (c : ℕ) (s : Encoder) → IsEncoder s → Wrote s (c ∷ []) (put_mark c s)
unfolding put_mark
put_mark-Wrote c s v = expanded_store 1 (c ∷ []) s v (omega arith) (omega arith)

-- On a valid encoder `addElement` appends the bencoded form of an element that is not empty and
-- fits a block.
pub add_element-Wrote :
    (boost : Boost) (bytes : Buffer) (s : Encoder)
    → IsEncoder s
    → bytes ≢ []
    → Fits boost bytes
    → Wrote s (element boost bytes) (add_element boost bytes s)
add_element-Wrote boost bytes s v some_byte fits = record {
  after = third.written.after;
  wrote =
      unfold add_element in
      rw (not_empty bytes some_byte, first.written.wrote, second.written.wrote, third.written.wrote)
        refl;
  appended =
      third.written.appended
      ∙ ap (λ l. l ++ bytes)
          (second.written.appended
            ∙ ap (λ l. l ++ separator ∷ [])
                (first.written.appended ∙ ap (λ l. l ++ digits) e.same_content))
      ∙ regroup (content s);
  valid = third.written.valid;
  same_key = third.written.same_key ∙ second.written.same_key ∙ first.written.same_key ∙ e.same_key;
}
  where
    digits : Buffer
    digits = boost.to_string (length bytes)

    room : ℕ
    room = length digits + 1 + 1 + length bytes

    e : Expanded room s (check_and_expand room s)
    e = check_and_expand-Expanded room s v fits

    first : Stored digits (check_and_expand room s)
    first = store-Stored digits (check_and_expand room s) e.valid (omega (arith, e.room))

    second : Stored (separator ∷ []) first.written.after
    second =
        store-Stored (separator ∷ []) first.written.after first.written.valid
          (omega (arith, e.room, first.moved, first.same_size))

    third : Stored bytes second.written.after
    third =
        store-Stored bytes second.written.after second.written.valid
          (omega (arith, e.room, first.moved, first.same_size, second.moved, second.same_size))

    not_empty : (xs : Buffer) → xs ≢ [] → not (is_empty xs) ≡ true
    not_empty [] h = absurd (h refl)
    not_empty (x ∷ xs) h = refl

    regroup :
        (c : Buffer)
        → ((c ++ digits) ++ separator ∷ []) ++ bytes ≡ c ++ (digits ++ separator ∷ bytes)
    regroup c =
        append_assoc (c ++ digits) (separator ∷ []) bytes
        ∙ append_assoc c digits (separator ∷ bytes)

-- What an operation writes, and the key that it leaves as the last one.
pub record Writes (s : Encoder) (xs key : Buffer) (r : Outcome Encoder) : Type 0 where
  pub after : Encoder
  pub wrote : r ≡ returns after
  pub appended : content after ≡ content s ++ xs
  pub valid : IsEncoder after
  pub last : after.last_key ≡ key

pub Writes-trans :
    {s : Encoder} (xs ys key last : Buffer) {r : Outcome Encoder} (f : Encoder → Outcome Encoder)
    → Writes s xs key r
    → ((t : Encoder) → IsEncoder t → t.last_key ≡ key → Writes t ys last (f t))
    → Writes s (xs ++ ys) last (r >>= f)
Writes-trans {s} xs ys key last f w g =
    let v = g w.after w.valid w.last in
    record {
      after = v.after;
      wrote = ap (λ m. m >>= f) w.wrote ∙ v.wrote;
      appended = v.appended ∙ ap (λ l. l ++ ys) w.appended ∙ append_assoc (content s) xs ys;
      valid = v.valid;
      last = v.last;
    }

Wrote-Writes :
    (s : Encoder) (xs key : Buffer) {r : Outcome Encoder}
    → s.last_key ≡ key
    → Wrote s xs r
    → Writes s xs key r
Wrote-Writes s xs key e w = record {
  after = w.after;
  wrote = w.wrote;
  appended = w.appended;
  valid = w.valid;
  last = w.same_key ∙ e;
}

pub start_dictionary-Writes :
    (s : Encoder) (key : Buffer)
    → IsEncoder s
    → s.last_key ≡ key
    → Writes s (dictionary_mark ∷ []) key (start_dictionary s)
unfolding start_dictionary
start_dictionary-Writes s key v e =
    Wrote-Writes s (dictionary_mark ∷ []) key e (put_mark-Wrote dictionary_mark s v)

-- The end of a dictionary forgets the last key.
pub end_dictionary-Writes :
    (s : Encoder) → IsEncoder s → Writes s (end_mark ∷ []) [] (end_dictionary s)
unfolding end_dictionary
end_dictionary-Writes s v =
    let cleared : Encoder = record s { last_key = [] } in
    let w =
      put_mark-Wrote end_mark cleared
        (record { within = v.within; blocks = v.blocks; sized = v.sized }) in
    record {
      after = w.after;
      wrote = w.wrote;
      appended = w.appended;
      valid = w.valid;
      last = w.same_key;
    }

pub add_element-Writes :
    (boost : Boost) (bytes : Buffer) (s : Encoder) (key : Buffer)
    → IsEncoder s
    → s.last_key ≡ key
    → bytes ≢ []
    → Fits boost bytes
    → Writes s (element boost bytes) key (add_element boost bytes s)
add_element-Writes boost bytes s key v e some_byte fits =
    Wrote-Writes s (element boost bytes) key e (add_element-Wrote boost bytes s v some_byte fits)

-- `addDictionaryElement` appends a key and its value where the key does not stand before the last
-- one.
pub add_dictionary_element-Writes :
    (boost : Boost) (key bytes : Buffer) (s : Encoder) (last : Buffer)
    → IsEncoder s
    → s.last_key ≡ last
    → (not (is_empty last) && lexicographical_compare key last) ≡ false
    → key ≢ []
    → Fits boost key
    → bytes ≢ []
    → Fits boost bytes
    → Writes s
        (element boost key ++ element boost bytes)
        key
        (add_dictionary_element boost key bytes s)
add_dictionary_element-Writes boost key bytes s last v e order some_key key_fits some_byte fits =
    let in_order : (not (is_empty s.last_key) && lexicographical_compare key s.last_key) ≡ false =
      ap (λ l. not (is_empty l) && lexicographical_compare key l) e ∙ order in
    let k = add_element-Wrote boost key s v some_key key_fits in
    let w = add_element-Wrote boost bytes k.after k.valid some_byte fits in
    record {
      after = record w.after { last_key = key };
      wrote = unfold add_dictionary_element in rw (in_order, k.wrote, w.wrote) refl;
      appended =
          w.appended
          ∙ ap (λ l. l ++ element boost bytes) k.appended
          ∙ append_assoc (content s) (element boost key) (element boost bytes);
      valid = record { within = w.valid.within; blocks = w.valid.blocks; sized = w.valid.sized };
      last = refl;
    }

-- `value` of a valid encoder is what it has written.
pub value-content : (s : Encoder) → IsEncoder s → (Encoder.value s).0 ≡ content s
unfolding Encoder.value resize
value-content s v =
    let none_more : s.used_bytes - length s.result ≡ 0 = omega (arith, v.within) in
    rw none_more (append-nil (content s))

pub make_encoder-IsEncoder : IsEncoder make_encoder × (content make_encoder ≡ [])
unfolding make_encoder
make_encoder-IsEncoder =
    (record { within = omega arith; blocks = 1; sized = length-replicate 1024 0 }, refl)
