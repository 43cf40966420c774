-- ===== src/Bencode/Encoder/Refinement.antt =====
-- The encoder against its contract: a message that grows at its end, and the key written last.
use torrent_sync.Bencode.Boost.{Boost}
use torrent_sync.Bencode.Encoder.{Encoder, start_dictionary, end_dictionary}
use torrent_sync.Bencode.Encoder
