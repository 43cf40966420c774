-- ===== src/Bencode/Decoder/Entries.antt =====
-- Dictionaries that hold other dictionaries: their bencoded form, and the map of their strings.
use torrent_sync.Common.{◌^◌, ◌<◌, ◌≡◌, ◌≢◌, [], ◌∷◌, ◌++◌, length, returns}
use torrent_sync.NodeData.Codec.{Buffer}
use torrent_sync.Bencode.{dictionary_mark, end_mark}
use torrent_sync.Bencode.Boost.{Boost}
use torrent_sync.Bencode.Encoder.Elements.{element}
use torrent_sync.Bencode.Decoder.{DataMap, insert, c_string}
use torrent_sync.Bencode.Decoder.Parse.{Reserve}

-- The entries of a dictionary: under each key a string or another dictionary.
pub data Entries : Type 0 where
  no_entry : Entries
  string_under : Buffer → Buffer → Entries → Entries
  dictionary_under : Buffer → Entries → Entries → Entries

-- The bencoded form of the entries, and what follows it.
abbrev pub encoded : Boost → Entries → Buffer → Buffer
encoded boost no_entry rest = rest
encoded boost (string_under key bytes es) rest =
    element boost key ++ (element boost bytes ++ encoded boost es rest)
encoded boost (dictionary_under key inner es) rest =
    element boost key ++ dictionary_mark ∷ encoded boost inner (end_mark ∷ encoded boost es rest)

abbrev pub dictionary_bytes : Boost → Entries → Buffer
dictionary_bytes boost es = dictionary_mark ∷ encoded boost es (end_mark ∷ [])

-- The strings, each under the path of keys that leads to it, put into a map in order.
abbrev pub flatten_entries : Buffer → Entries → DataMap → DataMap
flatten_entries before no_entry m = m
flatten_entries before (string_under key bytes es) m =
    flatten_entries before es (insert (before ++ key) bytes m)
flatten_entries before (dictionary_under key inner es) m =
    flatten_entries before es (flatten_entries (before ++ (key ++ 47 ∷ [])) inner m)

-- A key that survives the decoder: not too long, and without a zero.
abbrev pub IsKey : Buffer → Type 0
IsKey key = (length key < 2 ^ 31) × (c_string key ≡ key)

-- A value that there is memory for.
abbrev pub IsValue : Reserve → Buffer → Type 0
IsValue reserve bytes = (length bytes < 2 ^ 64) × (reserve (length bytes) ≡ returns tt)

-- Keys and values that the decoder reads, and no empty key for a dictionary.
abbrev pub IsReadable : Reserve → Entries → Type 0
IsReadable reserve no_entry = Unit
IsReadable reserve (string_under key bytes es) =
    IsKey key × IsValue reserve bytes × IsReadable reserve es
IsReadable reserve (dictionary_under key inner es) =
    (key ≢ []) × IsKey key × IsReadable reserve inner × IsReadable reserve es
