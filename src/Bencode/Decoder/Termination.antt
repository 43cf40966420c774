-- ===== src/Bencode/Decoder/Termination.antt =====
-- Every round of the decoder's loop takes a byte from the stream, so that the loop ends.
use torrent_sync.Common.{
  ap, ℕ, zero, suc, ◌≤◌, ◌<◌, ◌≡◌, refl, inl, inr, Bool, true, false, Bool-cases, ◌==◌,
  if◌then◌else◌, Option, none, some, [], ◌∷◌, length, Outcome, returns, throws, aborts, undefined,
  runtime_error, arith,
}
use torrent_sync.NodeData.Codec.{Buffer}
use torrent_sync.Bencode.{dictionary_mark, list_mark, end_mark}
use torrent_sync.Bencode.Boost.{Boost}
use torrent_sync.Bencode.Stream.{Stream, make_stream, good, peek, peek_at, ignore, ignore_at}
use torrent_sync.Bencode.Decoder.{
  DataMap, Decoder, StackEntry, make_decoder, back, read_element, read_value,
}
use torrent_sync.Bencode.Decoder.Parse.{
  Reserve, Round, round, dispatch, entry, entry_of, dictionary_entry, list_entry, value_of_key,
  begins_structure, begin_dictionary, begin_list, end_structure, end_of, counter_after,
  continue_with, parse_loop, decode,
}
use torrent_sync.Bencode.Decoder.Shrinking.{
  Returns, Returns-bind, Returns-anything, left, peek-left, read_element-Returns,
  read_value-Returns,
}

abbrev Advances : Stream → Round → Type 0
Advances s r = left r.1.1 < left s

ignore-lt : (s : Stream) → good s ≡ true → 1 ≤ left s → left (ignore s) < left s
unfolding ignore
ignore-lt s e h = rw e (at s.rest refl)
  where
    at : (bytes : Buffer) → s.rest ≡ bytes → left (ignore_at bytes s) < left s
    at [] r = absurd (omega (arith, h, ap length r))
    at (c ∷ cs) r = unfold ignore_at in omega (arith, ap length r)

module _ (boost : Boost) (reserve : Reserve) where
  value_of_key-Returns :
      (key : Buffer) (d : Decoder) (s before : Stream)
      → left s < left before
      → Returns (Advances before) (value_of_key reserve key d s)
  unfolding value_of_key
  value_of_key-Returns key d s before h = elim (Bool-cases (begins_structure (peek s).0)) [
    | inl e ↦ rw e (omega (arith, h, peek-left s))
    | inr e ↦ rw e (
        Returns-bind (λ r. left r.1 < left (peek s).1) (Advances before)
          (read_value reserve (peek s).1) _ (read_value-Returns reserve (peek s).1)
          (λ r k. omega (arith, h, k, peek-left s)))
  ]

  entry_of-Returns :
      (top : Option StackEntry) (d : Decoder) (s : Stream)
      → Returns (Advances s) (entry_of boost reserve top d s)
  unfolding entry_of dictionary_entry list_entry
  entry_of-Returns none d s = tt
  entry_of-Returns (some (name, true)) d s =
      Returns-bind (λ r. left r.1 < left s) (Advances s) (read_value reserve s) _
        (read_value-Returns reserve s) (λ r k. k)
  entry_of-Returns (some (name, false)) d s =
      Returns-bind (λ r. left r.1 < left s) (Advances s) (read_element s) _ (read_element-Returns s)
        (λ r k. value_of_key-Returns r.0 d r.1 s k)

  end_of-Returns :
      (top : Option StackEntry) (d : Decoder) (s : Stream)
      → left (ignore s) < left s
      → Returns (Advances s) (end_of boost top d s)
  unfolding end_of
  end_of-Returns none d s h = tt
  end_of-Returns (some structure) d s h =
      Returns-bind (λ u. Unit {0}) (Advances s) (counter_after boost structure) _
        (Returns-anything (counter_after boost structure)) (λ u k. h)

  dispatch-Returns :
      (c : ℕ) (d : Decoder) (s : Stream)
      → left (ignore s) < left s
      → Returns (Advances s) (dispatch boost reserve (some c) d s)
  unfolding dispatch begin_dictionary begin_list end_structure entry
  dispatch-Returns c d s h = elim (Bool-cases (c == dictionary_mark)) [
    | inl e ↦ rw e h
    | inr e ↦ elim (Bool-cases (c == list_mark)) [
      | inl p ↦ rw (e, p) h
      | inr p ↦ elim (Bool-cases (c == end_mark)) [
        | inl q ↦ rw (e, p, q) (end_of-Returns (back d.structure_stack) d s h)
        | inr q ↦ rw (e, p, q) (entry_of-Returns (back d.structure_stack) d s)
      ]
    ]
  ]

  round-Returns : (d : Decoder) (s : Stream) → Returns (Advances s) (round boost reserve d s)
  unfolding round peek
  round-Returns d s = elim (Bool-cases (good s)) [
    | inr e ↦ rw e tt
    | inl e ↦ rw e (at s.rest refl e)
  ]
    where
      at :
          (bytes : Buffer)
          → s.rest ≡ bytes
          → good s ≡ true
          → Returns (Advances s) (dispatch boost reserve (peek_at bytes s).0 d (peek_at bytes s).1)
      at [] r e =
          unfold peek_at dispatch entry in
          entry_of-Returns (back d.structure_stack) d (record s { at_end = true })
      at (c ∷ cs) r e =
          unfold peek_at in dispatch-Returns c d s (ignore-lt s e (omega (arith, ap length r)))

continue_with_ends :
    (next : Decoder → Stream → Option (Outcome DataMap)) (s : Stream) (m : Outcome Round)
    → Returns (Advances s) m
    → ((d' : Decoder) (s' : Stream)
        → left s' < left s
        → (r : Outcome DataMap) × (next d' s' ≡ some r))
    → (r : Outcome DataMap) × (continue_with next m ≡ some r)
unfolding continue_with
continue_with_ends next s (returns (true, (d', s'))) a f = (returns d'.data_map, refl)
continue_with_ends next s (returns (false, (d', s'))) a f = f d' s' a
continue_with_ends next s (throws e) a f = (throws e, refl)
continue_with_ends next s aborts a f = (aborts, refl)
continue_with_ends next s undefined a f = (undefined, refl)

either_ends :
    (b : Bool) {x y : Option (Outcome DataMap)}
    → (r : Outcome DataMap) × (x ≡ some r)
    → (r : Outcome DataMap) × (y ≡ some r)
    → (r : Outcome DataMap) × ((if b then x else y) ≡ some r)
either_ends true p q = p
either_ends false p q = q

-- A loop with more fuel than bytes ends.
loop_ends :
    (boost : Boost) (reserve : Reserve) (fuel : ℕ) (d : Decoder) (s : Stream)
    → left s < fuel
    → (r : Outcome DataMap) × (parse_loop boost reserve fuel d s ≡ some r)
unfolding parse_loop
loop_ends boost reserve zero d s h = absurd (omega (arith, h))
loop_ends boost reserve (suc fuel) d s h =
    either_ends s.at_end (throws runtime_error, refl)
      (continue_with_ends (parse_loop boost reserve fuel) s (round boost reserve d s)
        (round-Returns boost reserve d s)
        (λ d' s' k. loop_ends boost reserve fuel d' s' (omega (arith, h, k))))

-- The decoder ends on every buffer, whatever its bytes: the fuel is enough.
pub decode_ends :
    (boost : Boost) (reserve : Reserve) (bytes : Buffer)
    → (r : Outcome DataMap) × (decode boost reserve bytes ≡ some r)
unfolding decode
decode_ends boost reserve bytes =
    loop_ends boost reserve (suc (suc (length bytes))) make_decoder (make_stream bytes)
      (omega arith)
