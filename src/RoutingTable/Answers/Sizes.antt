-- ===== src/RoutingTable/Answers/Sizes.antt =====
-- The messages of the program fit the buffer of a receive.
use torrent_sync.Common.{
  sym, subst, ◌∙◌, ℕ, ◌≡◌, ◌+◌, ◌≤◌, ◌<◌, length, length-append, [], ◌∷◌, ◌++◌, All, returns,
  returns_injective, arith,
}
use torrent_sync.NodeData.{NodeData}
use torrent_sync.NodeData.Codec.{Buffer, write}
use torrent_sync.Bencode.{separator, dictionary_mark, end_mark}
use torrent_sync.Bencode.Boost.{Boost, IsBoost}
use torrent_sync.Bencode.Encoder.Elements.{element}
use torrent_sync.Bencode.Encoder.Chain.{IsShort}
use torrent_sync.Bencode.Decoder.{DataMap}
use torrent_sync.Message.Shape.{pairs, message_bytes}
use torrent_sync.Message.Text.{field_arguments, field_peer_id, messages_ping, messages_find_node}
use torrent_sync.Message.Query.{make_ping, make_find_node}
use torrent_sync.Message.Query.RoundTrip.{
  find_node_arguments, query_fields, write-length, make_ping-message_bytes,
  make_find_node-message_bytes,
}

-- Room enough for the pairs, where no length has more than three digits.
abbrev room : DataMap → ℕ
room [] = 0
room (p ∷ ps) = length p.0 + 4 + (length p.1 + 4) + room ps

abbrev AreShort : DataMap → Type 0
AreShort ps = All (λ p. (length p.0 < 1000) × (length p.1 < 1000)) ps

module _ (boost : Boost) (b : IsBoost boost) where
  length-element_short :
      (bytes : Buffer) → length bytes < 1000 → length (element boost bytes) ≤ length bytes + 4
  length-element_short bytes h = omega (
    arith,
    b.few_digits (length bytes) h,
    length-append (boost.to_string (length bytes)) (separator ∷ bytes),
  )

  length-pairs_short :
      (ps : DataMap) (rest : Buffer)
      → AreShort ps
      → length (pairs boost ps rest) ≤ room ps + length rest
  length-pairs_short [] rest h = omega arith
  length-pairs_short (p ∷ ps) rest h = omega (
    arith,
    length-pairs_short ps rest h.1,
    length-element_short p.0 h.0.0,
    length-element_short p.1 h.0.1,
    length-append (element boost p.0) (element boost p.1 ++ pairs boost ps rest),
    length-append (element boost p.1) (pairs boost ps rest),
  )

  pub length-message_bytes :
      (key : Buffer) (inner outer : DataMap)
      → length key < 1000
      → AreShort inner
      → AreShort outer
      → length (message_bytes boost key inner outer) ≤ length key + room inner + room outer + 8
  length-message_bytes key inner outer hk hi ho =
      let rest : Buffer = end_mark ∷ pairs boost outer (end_mark ∷ []) in
      omega (
        arith,
        length-element_short key hk,
        length-pairs_short inner rest hi,
        length-pairs_short outer (end_mark ∷ []) ho,
        length-append (element boost key) (dictionary_mark ∷ pairs boost inner rest),
      )

  module _ (tid : Buffer) (short : IsShort tid) (source : NodeData) where
    pub length-make_ping :
        (query : Buffer) → make_ping boost tid source ≡ returns query → length query ≤ 4096
    length-make_ping query made =
        subst (λ q. length q ≤ 4096)
          (returns_injective (sym (make_ping-message_bytes boost b tid short source) ∙ made))
          (omega (
            arith,
            short.1,
            write-length source,
            length-message_bytes field_arguments ((field_peer_id, write source) ∷ [])
                (query_fields messages_ping tid) (omega arith)
                ((omega arith, omega (arith, write-length source)), tt)
                (
                  (omega arith, omega arith),
                  ((omega arith, short.1), ((omega arith, omega arith), tt)),
                ),
          ))

    pub length-make_find_node :
        (target : NodeData) (query : Buffer)
        → make_find_node boost tid source target ≡ returns query
        → length query ≤ 4096
    length-make_find_node target query made =
        subst (λ q. length q ≤ 4096)
          (returns_injective
            (sym (make_find_node-message_bytes boost b tid short source target) ∙ made))
          (omega (
            arith,
            short.1,
            write-length source,
            write-length target,
            length-message_bytes field_arguments (find_node_arguments source target)
                (query_fields messages_find_node tid) (omega arith)
                (
                  (omega arith, omega (arith, write-length source)),
                  ((omega arith, omega (arith, write-length target)), tt),
                )
                (
                  (omega arith, omega arith),
                  ((omega arith, short.1), ((omega arith, omega arith), tt)),
                ),
          ))
