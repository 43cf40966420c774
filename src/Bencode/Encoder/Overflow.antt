-- ===== src/Bencode/Encoder/Overflow.antt =====
-- An element for which `checkAndExpand` does not make room: the buffer grows by one block at most.
use torrent_sync.Common.{
  ap, ◌∙◌, ℕ, zero, suc, ◌+◌, ◌*◌, ◌/◌, ◌≤◌, ◌<◌, ◌≡◌, ◌≢◌, ◌⊎◌, inl, inr, refl, true, not,
  Bool-cases, ltb, leb, [], ◌∷◌, length, Outcome, returns, undefined, arith, ◌>>=◌,
}
use torrent_sync.NodeData.Codec.{Buffer}
use torrent_sync.Bencode.{separator}
use torrent_sync.Bencode.Boost.{Boost}
use torrent_sync.Bencode.Encoder.{
  Encoder, resize, check_and_expand, copy_to, store, add_element, is_empty,
}
use torrent_sync.Bencode.Encoder.Content.{IsEncoder, store-Stored, length-resize}

copy_to-undefined :
    (i : ℕ) (xs rs : Buffer) → length rs < i + length xs → copy_to i xs rs ≡ undefined
unfolding copy_to
copy_to-undefined zero [] rs h = absurd (omega (arith, h))
copy_to-undefined zero (x ∷ xs) [] h = refl
copy_to-undefined zero (x ∷ xs) (r ∷ rs) h =
    ap (λ o. o >>= λ copied. returns (x ∷ copied)) (copy_to-undefined zero xs rs (omega (arith, h)))
copy_to-undefined (suc i) xs [] h = refl
copy_to-undefined (suc i) xs (r ∷ rs) h =
    ap (λ o. o >>= λ copied. returns (r ∷ copied)) (copy_to-undefined i xs rs (omega (arith, h)))

store-undefined :
    (xs : Buffer) (s : Encoder)
    → length s.result < s.used_bytes + length xs
    → store xs s ≡ undefined
unfolding store
store-undefined xs s h = rw (copy_to-undefined s.used_bytes xs s.result h) refl

fits_or_not : (a b : ℕ) → (a ≤ b) ⊎ (b < a)
fits_or_not a b = elim (Bool-cases (leb a b)) [
  | inl e ↦ inl (ground arith)
  | inr e ↦ inr (ground arith)
]

-- Bytes are stored before others for which no room is left.
store_before :
    (xs : Buffer) (need : ℕ) (s : Encoder) (f : Encoder → Outcome Encoder)
    → IsEncoder s
    → length s.result < s.used_bytes + length xs + need
    → ((t : Encoder) → IsEncoder t → length t.result < t.used_bytes + need → f t ≡ undefined)
    → (store xs s >>= f) ≡ undefined
store_before xs need s f v h fails =
    elim (fits_or_not (s.used_bytes + length xs) (length s.result)) [
      | inr over ↦ ap (λ o. o >>= f) (store-undefined xs s over)
      | inl room ↦
          let w = store-Stored xs s v room in
          ap (λ o. o >>= f) w.written.wrote
          ∙ fails w.written.after w.written.valid (omega (arith, h, w.moved, w.same_size))
    ]

-- On a valid encoder an element whose bencoded form does not fit the buffer with one more block is
-- written past the end of the buffer, which is undefined.
pub add_element-undefined :
    (boost : Boost) (bytes : Buffer) (s : Encoder)
    → IsEncoder s
    → bytes ≢ []
    → (length s.result / 1024 + 1) * 1024
      < s.used_bytes + length (boost.to_string (length bytes)) + 1 + length bytes
    → add_element boost bytes s ≡ undefined
unfolding add_element check_and_expand
add_element-undefined boost bytes s v some_byte over =
    rw (not_empty bytes some_byte, grows)
      (store_before digits (1 + length bytes) grown _ valid (omega (arith, over, new_length))
        (λ t vt ht.
          store_before (separator ∷ []) (length bytes) t (store bytes) vt (omega (arith, ht))
            (λ u vu hu. store-undefined bytes u hu)))
  where
    digits : Buffer
    digits = boost.to_string (length bytes)

    size : ℕ
    size = (length s.result / 1024 + 1) * 1024

    not_empty : (xs : Buffer) → xs ≢ [] → not (is_empty xs) ≡ true
    not_empty [] h = absurd (h refl)
    not_empty (x ∷ xs) h = refl

    grows : ltb (length s.result) (s.used_bytes + (length digits + 1 + 1 + length bytes)) ≡ true
    grows =
        below (length s.result) (s.used_bytes + (length digits + 1 + 1 + length bytes))
          (omega (arith, over))
      where
        below : (a b : ℕ) → a < b → ltb a b ≡ true
        below a b h = ground arith

    grown : Encoder
    grown = record s { result = resize size s.result }

    new_length : length (resize size s.result) ≡ size
    new_length = length-resize size s.result (omega arith)

    valid : IsEncoder grown
    valid = record {
      within = omega (arith, new_length, v.within);
      blocks = length s.result / 1024 + 1;
      sized = new_length;
    }
