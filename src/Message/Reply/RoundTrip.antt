-- ===== src/Message/Reply/RoundTrip.antt =====
-- The replies that the program makes, parsed again.
use torrent_sync.Common.{
  ℕ, ◌≤◌, ◌<◌, ◌≡◌, ◌≢◌, refl, false, some, List, [], ◌∷◌, map, length, All, returns, ◌>>=◌, arith,
}
use torrent_sync.NodeData.{NodeData}
use torrent_sync.NodeData.Codec.{Buffer, Endian, write}
use torrent_sync.Node.{Node}
use torrent_sync.Bencode.{end_mark}
use torrent_sync.Bencode.Boost.{Boost, IsBoost}
use torrent_sync.Bencode.Encoder
use torrent_sync.Bencode.Encoder.{
  Encoder, make_encoder, is_empty, lexicographical_compare, start_dictionary, end_dictionary,
  add_element, add_dictionary_element,
}
use torrent_sync.Bencode.Encoder.Content.{IsEncoder}
use torrent_sync.Bencode.Encoder.Elements.{Writes, end_dictionary-Writes, make_encoder-IsEncoder}
use torrent_sync.Bencode.Encoder.Chain.{
  IsShort, then_begin, then_end, then_element, then_entry, finished,
}
use torrent_sync.Bencode.Decoder.{DataMap, insert, find_in, same_string}
use torrent_sync.Bencode.Decoder.Parse.{Reserve}
use torrent_sync.Message.Text.{
  equals, type_reply, field_type, field_peer_id, field_transaction_id, field_reply, field_nodes,
}
use torrent_sync.Bencode.Decoder.Entries.{IsKey}
use torrent_sync.Message.Shape.{pairs, message_bytes, flattened, IsPair, decode-message_bytes}
use torrent_sync.Message.{
  plain, parse_message, message_from, parsed, catch_bencode, required, message_of, get_type, get_id,
  get_transaction_id,
}
use torrent_sync.Message.Query.RoundTrip.{IsSent, write-IsShort, write-length}
use torrent_sync.Message.Reply.{
  make_ping_reply, ping_message, make_find_node_reply, find_node_message, check_ping,
  check_find_node, get_nodes, nodes_of,
}
use torrent_sync.Message.Reply.Nodes.{
  IsPeer, received, packed_nodes, length-packed_nodes, pack_nodes_lem, parse_nodes-packed_nodes,
}

abbrev pub reply_fields : Buffer → DataMap
reply_fields transaction_id = (field_transaction_id, transaction_id) ∷ (field_type, type_reply) ∷ []

abbrev pub reply_nodes : NodeData → Buffer → DataMap
reply_nodes source node_data = (field_peer_id, write source) ∷ (field_nodes, node_data) ∷ []

module _ (boost : Boost) (b : IsBoost boost) (transaction_id : Buffer)
    (short : IsShort transaction_id) where
  -- The entries behind the inner dictionary.
  fields :
      (enc : Encoder)
      → IsEncoder enc
      → enc.last_key ≡ []
      → Writes enc (pairs boost (reply_fields transaction_id) (end_mark ∷ [])) [] (
          add_dictionary_element boost field_transaction_id transaction_id enc >>= λ e8.
          add_dictionary_element boost field_type type_reply e8 >>= λ e9. end_dictionary e9)
  fields enc v e =
      then_entry boost b enc v _ [] _ field_transaction_id transaction_id [] e refl
        (refl, omega arith) short
        (λ e8 v8 l8.
          then_entry boost b e8 v8 _ [] _ field_type type_reply field_transaction_id l8
            (unfold lexicographical_compare in refl) (refl, omega arith) (refl, omega arith)
            (λ e9 v9 l9. end_dictionary-Writes e9 v9))

  make_ping_reply-message_bytes :
      (source : NodeData)
      → make_ping_reply boost transaction_id source
        ≡ returns (
            message_bytes boost field_reply
              ((field_peer_id, write source) ∷ [])
              (reply_fields transaction_id))
  unfolding make_ping_reply
  make_ping_reply-message_bytes source = finished _ [] (ping_message boost transaction_id source) (
      unfold ping_message in
      then_begin boost b make_encoder make_encoder-IsEncoder.0 _ [] _ []
        (unfold make_encoder in refl)
        (λ e1 v1 l1.
          then_element boost b e1 v1 _ [] _ field_reply [] l1 (refl, omega arith)
            (λ e2 v2 l2. then_begin boost b e2 v2 _ [] _ [] l2 (λ e3 v3 l3.
              then_entry boost b e3 v3 _ [] _ field_peer_id (write source) [] l3 refl
                (refl, omega arith) (write-IsShort source)
                (λ e4 v4 l4. then_end boost b e4 v4 _ [] _ (λ e5 v5 l5. fields e5 v5 l5))))))

  find_node_message-message_bytes :
      (source : NodeData) (node_data : Buffer)
      → IsShort node_data
      → (find_node_message boost transaction_id source node_data make_encoder >>= λ enc.
          returns (Encoder.value enc).0)
        ≡ returns (
            message_bytes boost field_reply
              (reply_nodes source node_data)
              (reply_fields transaction_id))
  find_node_message-message_bytes source node_data few =
      finished _ [] (find_node_message boost transaction_id source node_data) (
        unfold find_node_message in
        then_begin boost b make_encoder make_encoder-IsEncoder.0 _ [] _ []
          (unfold make_encoder in refl)
          (λ e1 v1 l1.
            then_element boost b e1 v1 _ [] _ field_reply [] l1 (refl, omega arith)
              (λ e2 v2 l2. then_begin boost b e2 v2 _ [] _ [] l2 (λ e3 v3 l3.
                then_entry boost b e3 v3 _ [] _ field_peer_id (write source) [] l3 refl
                  (refl, omega arith) (write-IsShort source)
                  (λ e4 v4 l4.
                    then_entry boost b e4 v4 _ [] _ field_nodes node_data field_peer_id l4
                      (unfold lexicographical_compare in refl) (refl, omega arith) few
                      (λ e5 v5 l5. then_end boost b e5 v5 _ [] _ (λ e6 v6 l6. fields e6 v6 l6)))))))

nodes_nonempty :
    (e : Endian) (ns : List Node) (h : All IsPeer ns)
    → ns ≢ []
    → is_empty (packed_nodes e ns h) ≡ false
nodes_nonempty e [] h some_node = absurd (some_node refl)
nodes_nonempty e (n ∷ ns) h some_node =
    filled (packed_nodes e (n ∷ ns) h) (omega (arith, length-packed_nodes e (n ∷ ns) h))
  where
    filled : (xs : Buffer) → 1 ≤ length xs → is_empty xs ≡ false
    filled [] long = absurd (omega (arith, long))
    filled (x ∷ xs) long = refl

module _ (boost : Boost) (b : IsBoost boost) (reserve : Reserve) (transaction_id : Buffer)
    (sent : IsSent reserve transaction_id) where
  sent-IsPair : (key bytes : Buffer) → IsKey key → length bytes < 1000 → IsPair reserve (key, bytes)
  sent-IsPair key bytes k h = (k, omega (arith, h), sent.memory (length bytes) h)

  fields_sent : All (IsPair reserve) (reply_fields transaction_id)
  fields_sent = (
    sent-IsPair field_transaction_id transaction_id (omega arith, refl) sent.short.1,
    (sent-IsPair field_type type_reply (omega arith, refl) (omega arith), tt),
  )

  -- A ping reply that the program makes is parsed as a plain message that the check for a ping
  -- reply accepts, with the same source and transaction identifier, where the transaction has from one
  -- to 999 bytes and there is memory for strings of fewer than 1000 bytes.
  pub parse_message-make_ping_reply :
      (source : NodeData)
      → (bytes : Buffer) × (data_map : DataMap) × (make_ping_reply boost transaction_id source
          ≡ returns bytes)
        × (parse_message boost reserve bytes ≡ some (returns (some (plain data_map))))
        × (check_ping (plain data_map) ≡ returns (plain data_map))
        × (get_id (plain data_map) ≡ returns (write source))
        × (get_transaction_id (plain data_map) ≡ returns transaction_id)
  parse_message-make_ping_reply source = (
    message_bytes boost field_reply inner outer,
    flattened field_reply inner outer,
    make_ping_reply-message_bytes boost b transaction_id sent.short source,
    unfold parse_message in
        rw
          (decode-message_bytes boost b reserve field_reply inner outer (λ e. cc)
            (omega arith, refl)
            (
              sent-IsPair field_peer_id (write source) (omega arith, refl)
                  (omega (arith, write-length source)),
              tt,
            )
            fields_sent)
          (unfold message_from parsed catch_bencode message_of required find_in insert same_string
              equals in
            refl),
    unfold check_ping required find_in insert same_string in refl,
    unfold get_id get_type required find_in insert same_string equals in refl,
    unfold get_transaction_id required find_in insert same_string in refl,
  )
    where
      inner : DataMap
      inner = (field_peer_id, write source) ∷ []

      outer : DataMap
      outer = reply_fields transaction_id

  -- A find_node reply with one to eight nodes is parsed as a plain message that the check for a
  -- find_node reply accepts, with the same source and transaction identifier, and its nodes are
  -- those that were sent, on a host of the same byte order, each in a fresh state. The
  -- transaction has from one to 999 bytes and there is memory for strings of fewer than 1000 bytes.
  pub parse_message-make_find_node_reply :
      (e : Endian) (source : NodeData) (nodes : List Node) (stack now : ℕ) (garbage : NodeData)
      → All IsPeer nodes
      → nodes ≢ []
      → length nodes ≤ 8
      → (bytes : Buffer) × (data_map : DataMap) × (make_find_node_reply boost e transaction_id
            source nodes
          ≡ returns bytes)
        × (parse_message boost reserve bytes ≡ some (returns (some (plain data_map))))
        × (check_find_node (plain data_map) ≡ returns (plain data_map))
        × (get_id (plain data_map) ≡ returns (write source))
        × (get_transaction_id (plain data_map) ≡ returns transaction_id)
        × (get_nodes e stack now garbage (plain data_map) ≡ returns (map (received now) nodes))
  parse_message-make_find_node_reply e source nodes stack now garbage h some_node few = (
    message_bytes boost field_reply inner outer,
    flattened field_reply inner outer,
    unfold make_find_node_reply in
        rw (pack_nodes_lem e nodes h few) (
          find_node_message-message_bytes boost b transaction_id sent.short source node_data
            (nodes_nonempty e nodes h some_node, small)),
    unfold parse_message in
        rw
          (decode-message_bytes boost b reserve field_reply inner outer (λ k. cc)
            (omega arith, refl)
            (
              sent-IsPair field_peer_id (write source) (omega arith, refl)
                  (omega (arith, write-length source)),
              (sent-IsPair field_nodes node_data (omega arith, refl) small, tt),
            )
            fields_sent)
          (unfold message_from parsed catch_bencode message_of required find_in insert same_string
              equals in
            refl),
    unfold check_find_node required find_in insert same_string in refl,
    unfold get_id get_type required find_in insert same_string equals in refl,
    unfold get_transaction_id required find_in insert same_string in refl,
    unfold get_nodes nodes_of find_in insert same_string in
        parse_nodes-packed_nodes e stack now garbage nodes h (length node_data)
          (omega (arith, length-packed_nodes e nodes h)),
  )
    where
      node_data : Buffer
      node_data = packed_nodes e nodes h

      small : length node_data < 1000
      small = omega (arith, few, length-packed_nodes e nodes h)

      inner : DataMap
      inner = reply_nodes source node_data

      outer : DataMap
      outer = reply_fields transaction_id
