-- ===== src/Message/Text.antt =====
-- The strings of torrentsync/dht/message/Message.cpp by their character codes, and the comparison
-- of a buffer with a string of torrentsync/utils/Buffer.cpp.
use torrent_sync.Common.{Bool, true, false, ◌==◌, if◌then◌else◌, not, [], ◌∷◌, ◌++◌, length}
use torrent_sync.NodeData.Codec.{Buffer}

-- "q", "r" and "e".
abbrev pub type_query : Buffer
type_query = 113 ∷ []

abbrev pub type_reply : Buffer
type_reply = 114 ∷ []

abbrev pub type_error : Buffer
type_error = 101 ∷ []

-- "id", "t", "y", "r", "q", "e" and "a".
abbrev pub field_peer_id : Buffer
field_peer_id = 105 ∷ 100 ∷ []

abbrev pub field_transaction_id : Buffer
field_transaction_id = 116 ∷ []

abbrev pub field_type : Buffer
field_type = 121 ∷ []

abbrev pub field_reply : Buffer
field_reply = 114 ∷ []

abbrev pub field_query : Buffer
field_query = 113 ∷ []

abbrev pub field_error_type : Buffer
field_error_type = 101 ∷ []

abbrev pub field_arguments : Buffer
field_arguments = 97 ∷ []

-- "target" and "nodes".
abbrev pub field_target : Buffer
field_target = 116 ∷ 97 ∷ 114 ∷ 103 ∷ 101 ∷ 116 ∷ []

abbrev pub field_nodes : Buffer
field_nodes = 110 ∷ 111 ∷ 100 ∷ 101 ∷ 115 ∷ []

-- "ping" and "find_node".
abbrev pub messages_ping : Buffer
messages_ping = 112 ∷ 105 ∷ 110 ∷ 103 ∷ []

abbrev pub messages_find_node : Buffer
messages_find_node = 102 ∷ 105 ∷ 110 ∷ 100 ∷ 95 ∷ 110 ∷ 111 ∷ 100 ∷ 101 ∷ []

-- The path of a field in a dictionary.
abbrev pub under : Buffer → Buffer → Buffer
under dictionary field = dictionary ++ 47 ∷ field

-- The loop of `operator==`; the strings that the program compares with are ASCII.
abbrev pub equal_bytes : Buffer → Buffer → Bool
equal_bytes [] ys = true
equal_bytes (x ∷ xs) [] = false
equal_bytes (x ∷ xs) (y ∷ ys) = if not (x == y) then false else equal_bytes xs ys

unfoldable pub equals : Buffer → Buffer → Bool
equals buff text = if not (length buff == length text) then false else equal_bytes buff text
