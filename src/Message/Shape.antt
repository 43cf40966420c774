-- ===== src/Message/Shape.antt =====
-- The shape that all messages of the program have: a dictionary whose first key holds another
-- dictionary. The decoder flattens it into one map.
use torrent_sync.Common.{
  ◌∙◌, ap, sym, ◌^◌, ◌<◌, ◌≡◌, ◌≢◌, refl, some, [], ◌∷◌, ◌++◌, length, All, returns,
}
use torrent_sync.NodeData.Codec.{Buffer}
use torrent_sync.Bencode.{dictionary_mark, end_mark}
use torrent_sync.Bencode.Boost.{Boost, IsBoost}
use torrent_sync.Bencode.Encoder.Elements.{element}
use torrent_sync.Bencode.Decoder.{DataMap, insert}
use torrent_sync.Bencode.Decoder.Parse.{Reserve, decode}
use torrent_sync.Bencode.Decoder.Entries.{
  Entries, no_entry, string_under, dictionary_under, encoded, dictionary_bytes, flatten_entries,
  IsKey, IsReadable,
}
use torrent_sync.Bencode.Decoder.Nested.{decode-dictionary_bytes}

-- Keys with their values, and what follows them.
abbrev pub pairs : Boost → DataMap → Buffer → Buffer
pairs boost [] rest = rest
pairs boost (p ∷ ps) rest = element boost p.0 ++ (element boost p.1 ++ pairs boost ps rest)

abbrev pub message_bytes : Boost → Buffer → DataMap → DataMap → Buffer
message_bytes boost key inner outer =
    dictionary_mark
    ∷ (element boost key
        ++ dictionary_mark ∷ pairs boost inner (end_mark ∷ pairs boost outer (end_mark ∷ [])))

-- The entries of a dictionary under its path.
abbrev pub insert_pairs : Buffer → DataMap → DataMap → DataMap
insert_pairs before [] data_map = data_map
insert_pairs before (p ∷ ps) data_map = insert_pairs before ps (insert (before ++ p.0) p.1 data_map)

abbrev pub flattened : Buffer → DataMap → DataMap → DataMap
flattened key inner outer = insert_pairs [] outer (insert_pairs (key ++ 47 ∷ []) inner [])

-- A pair that the decoder reads, where there is memory for the value.
abbrev pub IsPair : Reserve → Buffer × Buffer → Type 0
IsPair reserve p = IsKey p.0 × (length p.1 < 2 ^ 64) × (reserve (length p.1) ≡ returns tt)

-- Strings at the front of a dictionary.
abbrev strings : DataMap → Entries → Entries
strings [] es = es
strings (p ∷ ps) es = string_under p.0 p.1 (strings ps es)

abbrev entries_of : Buffer → DataMap → DataMap → Entries
entries_of key inner outer = dictionary_under key (strings inner no_entry) (strings outer no_entry)

encoded-strings :
    (boost : Boost) (ps : DataMap) (rest : Buffer)
    → encoded boost (strings ps no_entry) rest ≡ pairs boost ps rest
encoded-strings boost [] rest = refl
encoded-strings boost (p ∷ ps) rest =
    ap (λ l. element boost p.0 ++ (element boost p.1 ++ l)) (encoded-strings boost ps rest)

flatten_entries-strings :
    (before : Buffer) (ps m : DataMap)
    → flatten_entries before (strings ps no_entry) m ≡ insert_pairs before ps m
flatten_entries-strings before [] m = refl
flatten_entries-strings before (p ∷ ps) m =
    flatten_entries-strings before ps (insert (before ++ p.0) p.1 m)

strings-IsReadable :
    (reserve : Reserve) (ps : DataMap)
    → All (IsPair reserve) ps
    → IsReadable reserve (strings ps no_entry)
strings-IsReadable reserve [] h = tt
strings-IsReadable reserve (p ∷ ps) h = (h.0.0, (h.0.1, h.0.2), strings-IsReadable reserve ps h.1)

-- The decoder turns the bytes of such a message into the flattened map.
pub decode-message_bytes :
    (boost : Boost) (b : IsBoost boost) (reserve : Reserve) (key : Buffer) (inner outer : DataMap)
    → key ≢ []
    → IsKey key
    → All (IsPair reserve) inner
    → All (IsPair reserve) outer
    → decode boost reserve (message_bytes boost key inner outer)
      ≡ some (returns (flattened key inner outer))
decode-message_bytes boost b reserve key inner outer some_key k hi ho =
    ap (decode boost reserve) (sym same_bytes)
    ∙ decode-dictionary_bytes boost b reserve (entries_of key inner outer)
        (some_key, k, strings-IsReadable reserve inner hi, strings-IsReadable reserve outer ho)
    ∙ ap (λ m. some (returns m)) same_map
  where
    same_bytes :
        dictionary_bytes boost (entries_of key inner outer) ≡ message_bytes boost key inner outer
    same_bytes =
        rw
          (
            encoded-strings boost inner
                (end_mark ∷ encoded boost (strings outer no_entry) (end_mark ∷ [])),
            encoded-strings boost outer (end_mark ∷ []),
          )
          refl

    same_map : flatten_entries [] (entries_of key inner outer) [] ≡ flattened key inner outer
    same_map =
        flatten_entries-strings [] outer
          (flatten_entries (key ++ 47 ∷ []) (strings inner no_entry) [])
        ∙ ap (insert_pairs [] outer) (flatten_entries-strings (key ++ 47 ∷ []) inner [])
