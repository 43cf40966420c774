-- ===== src/Bencode/Encoder/Chain.antt =====
-- Chains of calls of the encoder, each followed by the rest.
use mathlib.Core.List.{append_assoc}
use torrent_sync.Common.{
  subst, ◌∙◌, ap, ◌<◌, ◌≡◌, ◌≢◌, false, [], ◌∷◌, ◌++◌, length, Outcome, returns, not, ◌>>=◌, ◌&&◌,
  arith,
}
use torrent_sync.NodeData.Codec.{Buffer}
use torrent_sync.Bencode.{dictionary_mark, end_mark}
use torrent_sync.Bencode.Boost.{Boost, IsBoost}
use torrent_sync.Bencode.Encoder
use torrent_sync.Bencode.Encoder.{
  Encoder, make_encoder, check_and_expand, store, put_mark, is_empty, add_element,
  add_dictionary_element, lexicographical_compare, start_dictionary, end_dictionary, resize,
}
use torrent_sync.Bencode.Encoder.Content.{IsEncoder}
use torrent_sync.Bencode.Encoder.Elements.{
  element, Fits, Writes, Writes-trans, start_dictionary-Writes, end_dictionary-Writes,
  add_element-Writes, add_dictionary_element-Writes, value-content, make_encoder-IsEncoder,
}

nonempty : (xs : Buffer) → is_empty xs ≡ false → xs ≢ []
nonempty [] h = cc
nonempty (x ∷ xs) h = λ e. cc

-- What the program's messages keep to: no element is empty or long.
abbrev pub IsShort : Buffer → Type 0
IsShort bytes = (is_empty bytes ≡ false) × (length bytes < 1000)

-- Each call of the encoder, followed by the calls `f` that write the bytes `ys`.
module _ (boost : Boost) (b : IsBoost boost) (s : Encoder) (v : IsEncoder s) (ys final : Buffer)
    (f : Encoder → Outcome Encoder) where
  short-Fits : (bytes : Buffer) → length bytes < 1000 → Fits boost bytes
  short-Fits bytes h = omega (arith, h, b.few_digits (length bytes) h)

  pub then_begin :
      (key : Buffer)
      → s.last_key ≡ key
      → ((t : Encoder) → IsEncoder t → t.last_key ≡ key → Writes t ys final (f t))
      → Writes s (dictionary_mark ∷ ys) final (start_dictionary s >>= f)
  then_begin key e next =
      Writes-trans (dictionary_mark ∷ []) ys key final f (start_dictionary-Writes s key v e) next

  pub then_end :
      ((t : Encoder) → IsEncoder t → t.last_key ≡ [] → Writes t ys final (f t))
      → Writes s (end_mark ∷ ys) final (end_dictionary s >>= f)
  then_end next = Writes-trans (end_mark ∷ []) ys [] final f (end_dictionary-Writes s v) next

  pub then_element :
      (bytes key : Buffer)
      → s.last_key ≡ key
      → IsShort bytes
      → ((t : Encoder) → IsEncoder t → t.last_key ≡ key → Writes t ys final (f t))
      → Writes s (element boost bytes ++ ys) final (add_element boost bytes s >>= f)
  then_element bytes key e h next =
      Writes-trans (element boost bytes) ys key final f
        (add_element-Writes boost bytes s key v e (nonempty bytes h.0) (short-Fits bytes h.1)) next

  pub then_entry :
      (key bytes last : Buffer)
      → s.last_key ≡ last
      → (not (is_empty last) && lexicographical_compare key last) ≡ false
      → IsShort key
      → IsShort bytes
      → ((t : Encoder) → IsEncoder t → t.last_key ≡ key → Writes t ys final (f t))
      → Writes s
          (element boost key ++ (element boost bytes ++ ys))
          final
          (add_dictionary_element boost key bytes s >>= f)
  then_entry key bytes last e order hk h next =
      subst (λ l. Writes s l final (add_dictionary_element boost key bytes s >>= f))
        (append_assoc (element boost key) (element boost bytes) ys)
        (Writes-trans (element boost key ++ element boost bytes) ys key final f
          (add_dictionary_element-Writes boost key bytes s last v e order (nonempty key hk.0)
            (short-Fits key hk.1) (nonempty bytes h.0) (short-Fits bytes h.1))
          next)

-- What the buffer of a finished message holds.
pub finished :
    (xs final : Buffer) (f : Encoder → Outcome Encoder)
    → Writes make_encoder xs final (f make_encoder)
    → (f make_encoder >>= λ enc. returns (Encoder.value enc).0) ≡ returns xs
finished xs final f w =
    ap (λ m. m >>= λ enc. returns (Encoder.value enc).0) w.wrote
    ∙ ap returns
        (value-content w.after w.valid ∙ w.appended ∙ ap (λ l. l ++ xs) make_encoder-IsEncoder.1)
