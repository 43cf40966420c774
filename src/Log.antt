-- ===== src/Log.antt =====
-- torrentsync/utils/log: the logger, its sinks, and the stream that a message is put together in.
-- `timestamp` is what Boost writes for the current time.
pub mod Threshold
pub mod Tests
use torrent_sync.Common.{
  ℕ, ◌+◌, Bool, true, false, ltb, leb, if◌then◌else◌, Option, none, some, List, [], ◌∷◌, ◌++◌, map,
  Outcome, returns, undefined, ◌>>=◌,
}
use torrent_sync.NodeData.Codec.{Buffer}

pub data Level : Type 0 where
  debug info warn error : Level

-- The number of an enumerator.
unfoldable pub rank : Level → ℕ
rank debug = 0
rank info = 1
rank warn = 2
rank error = 3

-- "DEBUG", "INFO", "WARN" and "ERROR".
unfoldable pub level_to_string : Level → Buffer
level_to_string debug = 68 ∷ 69 ∷ 66 ∷ 85 ∷ 71 ∷ []
level_to_string info = 73 ∷ 78 ∷ 70 ∷ 79 ∷ []
level_to_string warn = 87 ∷ 65 ∷ 82 ∷ 78 ∷ []
level_to_string error = 69 ∷ 82 ∷ 82 ∷ 79 ∷ 82 ∷ []

-- A stream with its level: the texts written to it, and how often it was flushed.
pub record Sink : Type 0 where
  pub level : Level
  pub written : List Buffer
  pub flushed : ℕ

-- The static members of the class; the instance is its list of sinks.
pub record Logger : Type 0 where
  pub instance_sinks : Option (List Sink)
  pub log_level : Level
  pub force_flush : Bool

pub record LogStream : Type 0 where
  pub stream_level : Level
  pub buffer : Option Buffer

unfoldable pub start : Logger
start = record { instance_sinks = none; log_level = warn; force_flush = false }

-- What `getInstance` refers to; it makes an instance without sinks when there is none.
unfoldable pub sinks_of : Option (List Sink) → List Sink
sinks_of none = []
sinks_of (some sinks) = sinks

unfoldable pub get_instance : Logger → Logger
unfolding sinks_of
get_instance l = record l { instance_sinks = some (sinks_of l.instance_sinks) }

unfoldable pub set_force_flush : Bool → Logger → Logger
set_force_flush force l = record l { force_flush = force }

unfoldable pub set_log_level : Level → Logger → Logger
set_log_level level l = record l { log_level = level }

unfoldable pub add_sink : Level → Logger → Logger
unfolding get_instance sinks_of
add_sink level l = record l {
  instance_sinks =
      some (sinks_of l.instance_sinks ++ record { level = level; written = []; flushed = 0 } ∷ []);
}

unfoldable pub destroy : Logger → Logger
destroy l = record l { instance_sinks = none }

-- The constructor of the stream: a level below that of the log is raised to it.
unfoldable pub raised : Level → Level → Level
unfolding rank
raised log_level level = if ltb (rank level) (rank log_level) then log_level else level

unfoldable pub make_stream : Buffer → Level → Logger → LogStream
unfolding raised level_to_string
make_stream timestamp level l = record {
  stream_level = raised l.log_level level;
  buffer = some (91 ∷ timestamp ++ 32 ∷ level_to_string (raised l.log_level level) ++ 93 ∷ 32 ∷ []);
}

-- `*_buffer << t`, a null pointer after the end of the message.
unfoldable pub put_text : Buffer → Option Buffer → Outcome (Option Buffer)
put_text text none = undefined
put_text text (some buffer) = returns (some (buffer ++ text))

unfoldable pub append : Buffer → LogStream → Outcome LogStream
unfolding put_text
append text s = put_text text s.buffer >>= λ b. returns (record s { buffer = b })

-- The text goes to a sink whose level is not above that of the stream.
unfoldable pub deliver : Level → Buffer → Sink → Sink
unfolding rank
deliver level text sink =
    if leb (rank sink.level) (rank level)
    then record sink { written = sink.written ++ text ∷ [] }
    else sink

unfoldable pub flush : Bool → List Sink → List Sink
flush force sinks =
    if force then map (λ (sink : Sink). record sink { flushed = sink.flushed + 1 }) sinks else sinks

-- `<< logend`.
unfoldable pub end_text : Level → Option Buffer → Bool → List Sink → List Sink
unfolding deliver flush
end_text level none force sinks = sinks
end_text level (some buffer) force sinks =
    flush force (map (deliver level (buffer ++ 10 ∷ [])) sinks)

unfoldable pub end_message : LogStream → Logger → Logger
unfolding end_text sinks_of
end_message s l = record l {
  instance_sinks =
      some (end_text s.stream_level s.buffer l.force_flush (sinks_of l.instance_sinks));
}

-- The macro `LOG`.
unfoldable pub log : Buffer → Level → Buffer → Logger → Outcome Logger
unfolding get_instance make_stream append end_message
log timestamp level text l = append text (make_stream timestamp level (get_instance l)) >>= λ s.
    returns (end_message s (get_instance l))
