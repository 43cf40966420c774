-- ===== src/Bencode.antt =====
-- torrentsync/dht/message: the bencoded form of the messages. Characters are their codes.
pub mod Boost
pub mod Encoder
pub mod Stream
pub mod Decoder
pub mod Decimal
use torrent_sync.Common.{ℕ, Bool, List, [], ◌∷◌, ltb, ◌==◌, ◌&&◌, ◌||◌}
use torrent_sync.NodeData.Codec.{Buffer}

-- The marks of the format: `d`, `l`, `e` and `:`.
abbrev pub dictionary_mark : ℕ
dictionary_mark = 100

abbrev pub list_mark : ℕ
list_mark = 108

abbrev pub end_mark : ℕ
end_mark = 101

abbrev pub separator : ℕ
separator = 58

-- `std::isdigit`.
abbrev pub is_digit : ℕ → Bool
is_digit c = ltb 47 c && ltb c 58
