-- ===== src/Message/Query/RoundTrip.antt =====
-- The queries that the program makes, parsed again.
use torrent_sync.Common.{ℕ, ◌<◌, ◌≡◌, refl, some, [], ◌∷◌, length, All, returns, ◌>>=◌, arith}
use torrent_sync.NodeData.{NodeData}
use torrent_sync.NodeData.Codec.{Buffer, write}
use torrent_sync.Bencode.{end_mark}
use torrent_sync.Bencode.Boost.{Boost, IsBoost}
use torrent_sync.Bencode.Encoder.{
  Encoder, make_encoder, lexicographical_compare, end_dictionary, add_dictionary_element,
}
use torrent_sync.Bencode.Encoder.Content.{IsEncoder}
use torrent_sync.Bencode.Encoder.Elements.{Writes, end_dictionary-Writes, make_encoder-IsEncoder}
use torrent_sync.Bencode.Encoder.Chain.{
  IsShort, then_begin, then_end, then_element, then_entry, finished,
}
use torrent_sync.Bencode.Decoder.{DataMap, insert, find_in, same_string}
use torrent_sync.Bencode.Decoder.Parse.{Reserve}
use torrent_sync.Message.Text.{
  equals, type_query, field_type, field_query, field_peer_id, field_transaction_id, field_arguments,
  field_target, messages_ping, messages_find_node,
}
use torrent_sync.Bencode.Decoder.Entries.{IsKey}
use torrent_sync.Message.Shape.{pairs, message_bytes, flattened, IsPair, decode-message_bytes}
use torrent_sync.Message
use torrent_sync.Message.{
  Message, find_node, ping, parse_message, message_from, parsed, catch_bencode, required,
  message_of, query_of, get_type, get_id, get_transaction_id, get_message_type,
}
use torrent_sync.Message.Query.{
  make_ping, ping_message, make_find_node, find_node_message, get_target, target_of,
}

-- Memory for a message, and a transaction identifier that can be sent.
pub record IsSent (reserve : Reserve) (transaction_id : Buffer) : Type 0 where
  pub short : IsShort transaction_id
  pub memory : (n : ℕ) → n < 1000 → reserve n ≡ returns tt

abbrev pub find_node_arguments : NodeData → NodeData → DataMap
find_node_arguments source target =
    (field_peer_id, write source) ∷ (field_target, write target) ∷ []

abbrev pub query_fields : Buffer → Buffer → DataMap
query_fields name transaction_id =
    (field_query, name) ∷ (field_transaction_id, transaction_id) ∷ (field_type, type_query) ∷ []

pub write-IsShort : (d : NodeData) → IsShort (write d)
unfolding write
write-IsShort d = (refl, omega arith)

pub write-length : (d : NodeData) → length (write d) ≡ 20
unfolding write
write-length d = refl

module _ (boost : Boost) (b : IsBoost boost) (transaction_id : Buffer)
    (short : IsShort transaction_id) where
  -- The entries behind the arguments.
  fields :
      (name : Buffer) (enc : Encoder)
      → IsShort name
      → IsEncoder enc
      → enc.last_key ≡ []
      → Writes enc (pairs boost (query_fields name transaction_id) (end_mark ∷ [])) [] (
          add_dictionary_element boost field_query name enc >>= λ e7.
          add_dictionary_element boost field_transaction_id transaction_id e7 >>= λ e8.
          add_dictionary_element boost field_type type_query e8 >>= λ e9. end_dictionary e9)
  fields name enc h v e =
      then_entry boost b enc v _ [] _ field_query name [] e refl (refl, omega arith) h
        (λ e7 v7 l7.
          then_entry boost b e7 v7 _ [] _ field_transaction_id transaction_id field_query l7
            (unfold lexicographical_compare in refl) (refl, omega arith) short
            (λ e8 v8 l8.
              then_entry boost b e8 v8 _ [] _ field_type type_query field_transaction_id l8
                (unfold lexicographical_compare in refl) (refl, omega arith) (refl, omega arith)
                (λ e9 v9 l9. end_dictionary-Writes e9 v9)))

  pub make_find_node-message_bytes :
      (source target : NodeData)
      → make_find_node boost transaction_id source target
        ≡ returns (
            message_bytes boost field_arguments
              (find_node_arguments source target)
              (query_fields messages_find_node transaction_id))
  unfolding make_find_node
  make_find_node-message_bytes source target =
      finished _ [] (find_node_message boost transaction_id source target) (
        unfold find_node_message in
        then_begin boost b make_encoder make_encoder-IsEncoder.0 _ [] _ []
          (unfold make_encoder in refl)
          (λ e1 v1 l1.
            then_element boost b e1 v1 _ [] _ field_arguments [] l1 (refl, omega arith)
              (λ e2 v2 l2. then_begin boost b e2 v2 _ [] _ [] l2 (λ e3 v3 l3.
                then_entry boost b e3 v3 _ [] _ field_peer_id (write source) [] l3 refl
                  (refl, omega arith) (write-IsShort source)
                  (λ e4 v4 l4.
                    then_entry boost b e4 v4 _ [] _ field_target (write target) field_peer_id l4
                      (unfold lexicographical_compare in refl) (refl, omega arith)
                      (write-IsShort target)
                      (λ e5 v5 l5.
                        then_end boost b e5 v5 _ [] _
                          (λ e6 v6 l6. fields messages_find_node e6 (refl, omega arith) v6 l6)))))))

  pub make_ping-message_bytes :
      (source : NodeData)
      → make_ping boost transaction_id source
        ≡ returns (
            message_bytes boost field_arguments
              ((field_peer_id, write source) ∷ [])
              (query_fields messages_ping transaction_id))
  unfolding make_ping
  make_ping-message_bytes source = finished _ [] (ping_message boost transaction_id source) (
      unfold ping_message in
      then_begin boost b make_encoder make_encoder-IsEncoder.0 _ [] _ []
        (unfold make_encoder in refl)
        (λ e1 v1 l1.
          then_element boost b e1 v1 _ [] _ field_arguments [] l1 (refl, omega arith)
            (λ e2 v2 l2. then_begin boost b e2 v2 _ [] _ [] l2 (λ e3 v3 l3.
              then_entry boost b e3 v3 _ [] _ field_peer_id (write source) [] l3 refl
                (refl, omega arith) (write-IsShort source)
                (λ e4 v4 l4.
                  then_end boost b e4 v4 _ [] _
                    (λ e5 v5 l5. fields messages_ping e5 (refl, omega arith) v5 l5))))))

module _ (boost : Boost) (b : IsBoost boost) (reserve : Reserve) (transaction_id : Buffer)
    (sent : IsSent reserve transaction_id) where
  pub sent-IsPair :
      (key bytes : Buffer) → IsKey key → length bytes < 1000 → IsPair reserve (key, bytes)
  sent-IsPair key bytes k h = (k, omega (arith, h), sent.memory (length bytes) h)

  id_sent : (d : NodeData) → length (write d) < 1000
  id_sent d = omega (arith, write-length d)

  fields_sent :
      (name : Buffer) → length name < 1000 → All (IsPair reserve) (query_fields name transaction_id)
  fields_sent name h = (
    sent-IsPair field_query name (omega arith, refl) h,
    (
      sent-IsPair field_transaction_id transaction_id (omega arith, refl) sent.short.1,
      (sent-IsPair field_type type_query (omega arith, refl) (omega arith), tt),
    ),
  )

  -- A find_node query that the program makes is parsed as one, with the type of a query and the
  -- same source, target and transaction identifier, where the transaction has from one
  -- to 999 bytes and there is memory for strings of fewer than 1000 bytes.
  pub parse_message-make_find_node :
      (source target : NodeData)
      → (bytes : Buffer) × (data_map : DataMap) × (make_find_node boost transaction_id source target
          ≡ returns bytes)
        × (parse_message boost reserve bytes ≡ some (returns (some (find_node data_map))))
        × (get_target (find_node data_map) ≡ returns (write target))
        × (get_id (find_node data_map) ≡ returns (write source))
        × (get_transaction_id (find_node data_map) ≡ returns transaction_id)
        × (get_message_type (find_node data_map) ≡ returns messages_find_node)
        × (get_type (find_node data_map) ≡ returns type_query)
  parse_message-make_find_node source target = (
    message_bytes boost field_arguments inner outer,
    flattened field_arguments inner outer,
    make_find_node-message_bytes boost b transaction_id sent.short source target,
    unfold parse_message in
        rw
          (decode-message_bytes boost b reserve field_arguments inner outer (λ e. cc)
            (omega arith, refl)
            (
              sent-IsPair field_peer_id (write source) (omega arith, refl) (id_sent source),
              (sent-IsPair field_target (write target) (omega arith, refl) (id_sent target), tt),
            )
            (fields_sent messages_find_node (omega arith)))
          (unfold message_from parsed catch_bencode message_of query_of required
              Message.make_find_node find_in insert same_string equals in
            refl),
    unfold get_target target_of find_in insert same_string in refl,
    unfold get_id get_type required find_in insert same_string equals in refl,
    unfold get_transaction_id required find_in insert same_string in refl,
    unfold get_message_type required find_in insert same_string in refl,
    unfold get_type required find_in insert same_string in refl,
  )
    where
      inner : DataMap
      inner = find_node_arguments source target

      outer : DataMap
      outer = query_fields messages_find_node transaction_id

  -- A ping query that the program makes is parsed as one, with the type of a query and the same
  -- source and transaction identifier, where the transaction has from one
  -- to 999 bytes and there is memory for strings of fewer than 1000 bytes.
  pub parse_message-make_ping :
      (source : NodeData)
      → (bytes : Buffer) × (data_map : DataMap) × (make_ping boost transaction_id source
          ≡ returns bytes)
        × (parse_message boost reserve bytes ≡ some (returns (some (ping data_map))))
        × (get_id (ping data_map) ≡ returns (write source))
        × (get_transaction_id (ping data_map) ≡ returns transaction_id)
        × (get_message_type (ping data_map) ≡ returns messages_ping)
        × (get_type (ping data_map) ≡ returns type_query)
  parse_message-make_ping source = (
    message_bytes boost field_arguments inner outer,
    flattened field_arguments inner outer,
    make_ping-message_bytes boost b transaction_id sent.short source,
    unfold parse_message in
        rw
          (decode-message_bytes boost b reserve field_arguments inner outer (λ e. cc)
            (omega arith, refl)
            (sent-IsPair field_peer_id (write source) (omega arith, refl) (id_sent source), tt)
            (fields_sent messages_ping (omega arith)))
          (unfold message_from parsed catch_bencode message_of query_of required Message.make_ping
              find_in insert same_string equals in
            refl),
    unfold get_id get_type required find_in insert same_string equals in refl,
    unfold get_transaction_id required find_in insert same_string in refl,
    unfold get_message_type required find_in insert same_string in refl,
    unfold get_type required find_in insert same_string in refl,
  )
    where
      inner : DataMap
      inner = (field_peer_id, write source) ∷ []

      outer : DataMap
      outer = query_fields messages_ping transaction_id
