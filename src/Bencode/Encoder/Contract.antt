-- ===== src/Bencode/Encoder/Contract.antt =====
-- The contract of the encoder: its calls, what they promise, and what it is to keep the promise.
use torrent_sync.Common.{
  ◌≡◌, ◌<◌, not, ◌&&◌, if◌then◌else◌, List, [], ◌∷◌, ◌++◌, length, All, Outcome, returns, throws,
  aborts, logic_error, Exception, ◌>>=◌,
}
use torrent_sync.NodeData.Codec.{Buffer}
use torrent_sync.Bencode.{dictionary_mark, list_mark, end_mark}
use torrent_sync.Bencode.Boost.{Boost}
use torrent_sync.Bencode.Encoder.{
  Encoder, make_encoder, start_list, end_list, start_dictionary, end_dictionary, add_element,
  add_dictionary_element, add_elements, add_list, put_mark, is_empty, lexicographical_compare,
}
use torrent_sync.Bencode.Encoder
use torrent_sync.Bencode.Encoder.Content.{content, IsEncoder}
use torrent_sync.Bencode.Encoder.Elements.{element}

-- The calls of the encoder.
pub data Call : Type 0 where
  begins_list ends_list begins_dictionary ends_dictionary : Call
  adds : Buffer → Call
  adds_entry : Buffer → Buffer → Call
  adds_list : List Buffer → Call

unfoldable pub perform : Boost → Call → Encoder → Outcome Encoder
perform boost begins_list s = start_list s
perform boost ends_list s = end_list s
perform boost begins_dictionary s = start_dictionary s
perform boost ends_dictionary s = end_dictionary s
perform boost (adds bytes) s = add_element boost bytes s
perform boost (adds_entry key bytes) s = add_dictionary_element boost key bytes s
perform boost (adds_list xs) s = add_list boost xs s

unfoldable pub perform_all : Boost → List Call → Encoder → Outcome Encoder
unfolding perform
perform_all boost [] s = returns s
perform_all boost (c ∷ cs) s = perform boost c s >>= λ t. perform_all boost cs t

-- What the encoder promises: the message so far, and the last key of the open dictionary.
pub record Promise : Type 0 where
  pub bytes : Buffer
  pub key : Buffer

abbrev pub write_bytes : Buffer → Promise → Promise
write_bytes xs w = record w { bytes = w.bytes ++ xs }

unfoldable pub promised_elements : Boost → List Buffer → Promise → Outcome Promise
promised_elements boost [] w = returns w
promised_elements boost (x ∷ xs) w =
    if is_empty x then aborts else promised_elements boost xs (write_bytes (element boost x) w)

unfoldable pub promised : Boost → Call → Promise → Outcome Promise
unfolding promised_elements
promised boost begins_list w = returns (write_bytes (list_mark ∷ []) w)
promised boost ends_list w = returns (write_bytes (end_mark ∷ []) w)
promised boost begins_dictionary w = returns (write_bytes (dictionary_mark ∷ []) w)
promised boost ends_dictionary w = returns (record { bytes = w.bytes ++ end_mark ∷ []; key = [] })
promised boost (adds bytes) w =
    if is_empty bytes then aborts else returns (write_bytes (element boost bytes) w)
promised boost (adds_entry key bytes) w =
    if not (is_empty w.key) && lexicographical_compare key w.key
    then throws logic_error
    else if is_empty key
    then aborts
    else if is_empty bytes
    then aborts
    else returns
        (record { bytes = w.bytes ++ (element boost key ++ element boost bytes); key = key })
promised boost (adds_list xs) w =
    promised_elements boost xs (write_bytes (list_mark ∷ []) w) >>= λ v.
    returns (write_bytes (end_mark ∷ []) v)

unfoldable pub promised_all : Boost → List Call → Promise → Outcome Promise
unfolding promised
promised_all boost [] w = returns w
promised_all boost (c ∷ cs) w = promised boost c w >>= λ v. promised_all boost cs v

-- The message that the calls of a new encoder give.
unfoldable pub message : Boost → List Call → Outcome Buffer
unfolding make_encoder perform_all Encoder.value
message boost cs = perform_all boost cs make_encoder >>= λ s. returns (Encoder.value s).0

unfoldable pub promised_message : Boost → List Call → Outcome Buffer
unfolding promised_all
promised_message boost cs =
    promised_all boost cs (record { bytes = []; key = [] }) >>= λ w. returns w.bytes

-- The encoder holds the message.
pub record Holds (s : Encoder) (w : Promise) : Type 0 where
  pub valid : IsEncoder s
  pub holds : content s ≡ w.bytes
  pub same_key : s.last_key ≡ w.key

-- The two end alike.
pub data Alike : Outcome Encoder → Outcome Promise → Type 0 where
  both_return : {s : Encoder} {w : Promise} → Holds s w → Alike (returns s) (returns w)
  both_throw : {e f : Exception} → e ≡ f → Alike (throws e) (throws f)
  both_abort : Alike aborts aborts

abbrev pub IsShortCall : Call → Type 0
IsShortCall (adds bytes) = length bytes < 1000
IsShortCall (adds_entry key bytes) = (length key < 1000) × (length bytes < 1000)
IsShortCall (adds_list xs) = All (λ x. length x < 1000) xs
IsShortCall other = Unit
