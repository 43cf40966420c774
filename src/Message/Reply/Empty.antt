-- ===== src/Message/Reply/Empty.antt =====
-- A find_node reply without a node: the encoder refuses the empty element.
use torrent_sync.Common.{
  ap, ◌∙◌, ◌≡◌, ◌≢◌, ◌<◌, length, ◌∷◌, refl, false, [], Outcome, returns, aborts, arith, ◌>>=◌, not,
  ◌&&◌,
}
use torrent_sync.NodeData.{NodeData}
use torrent_sync.NodeData.Codec.{Buffer, Endian, write}
use torrent_sync.Bencode.Boost.{Boost, IsBoost}
use torrent_sync.Bencode.Encoder
use torrent_sync.Bencode.Encoder.{
  Encoder, make_encoder, is_empty, add_element, add_dictionary_element, lexicographical_compare,
  resize, end_dictionary,
}
use torrent_sync.Bencode.Encoder.Content.{IsEncoder}
use torrent_sync.Bencode.Encoder.Elements.{
  Writes, start_dictionary-Writes, add_element-Writes, add_dictionary_element-Writes,
  add_element-Wrote, Fits, make_encoder-IsEncoder,
}
use torrent_sync.Message.Text.{
  field_peer_id, field_reply, field_nodes, field_transaction_id, field_type, type_reply,
}
use torrent_sync.Message.Query.RoundTrip.{write-IsShort}
use torrent_sync.Message.Reply.{make_find_node_reply, find_node_message, pack_nodes, copy_nodes}

-- Writing goes on until an assertion fails.
then_aborts :
    {s : Encoder} {xs key : Buffer} {r : Outcome Encoder} {f : Encoder → Outcome Encoder}
    → Writes s xs key r
    → ((t : Encoder) → IsEncoder t → t.last_key ≡ key → f t ≡ aborts)
    → (r >>= f) ≡ aborts
then_aborts {f = f} w fails = ap (λ m. m >>= f) w.wrote ∙ fails w.after w.valid w.last

stop : {r : Outcome Encoder} (f : Encoder → Outcome Encoder) → r ≡ aborts → (r >>= f) ≡ aborts
stop f e = ap (λ m. m >>= f) e

module _ (boost : Boost) (b : IsBoost boost) where
  fits : (bytes : Buffer) → length bytes < 1000 → Fits boost bytes
  fits bytes h = omega (arith, h, b.few_digits (length bytes) h)

  add_dictionary_element-aborts :
      (s : Encoder)
      → IsEncoder s
      → s.last_key ≡ field_peer_id
      → add_dictionary_element boost field_nodes [] s ≡ aborts
  add_dictionary_element-aborts s v e =
      let k = add_element-Wrote boost field_nodes s v (λ e. cc) (fits field_nodes (omega arith)) in
      unfold add_dictionary_element add_element in rw (in_order s.last_key e, k.wrote) refl
    where
      in_order :
          (last : Buffer)
          → last ≡ field_peer_id
          → (not (is_empty last) && lexicographical_compare field_nodes last) ≡ false
      in_order last e = rw e (unfold lexicographical_compare in refl)

  -- A find_node reply without nodes fails an assertion of the encoder, whatever its identifiers.
  pub make_find_node_reply-aborts :
      (e : Endian) (transaction_id : Buffer) (source : NodeData)
      → make_find_node_reply boost e transaction_id source [] ≡ aborts
  unfolding make_find_node_reply pack_nodes copy_nodes resize
  make_find_node_reply-aborts e transaction_id source =
      ap (λ m. m >>= λ enc. returns (Encoder.value enc).0) inside
    where
      some_byte : (xs : Buffer) → is_empty xs ≡ false → xs ≢ []
      some_byte [] h = cc
      some_byte (x ∷ xs) h = λ e. cc

      others : Encoder → Outcome Encoder
      others e5 = end_dictionary e5 >>= λ e6.
          add_dictionary_element boost field_transaction_id transaction_id e6 >>= λ e7.
          add_dictionary_element boost field_type type_reply e7 >>= λ e8. end_dictionary e8

      inside : find_node_message boost transaction_id source [] make_encoder ≡ aborts
      inside =
          unfold find_node_message in
          then_aborts
            (start_dictionary-Writes make_encoder [] make_encoder-IsEncoder.0
              (unfold make_encoder in refl))
            (λ e1 v1 l1.
              then_aborts
                (add_element-Writes boost field_reply e1 [] v1 l1 (λ e. cc)
                  (fits field_reply (omega arith)))
                (λ e2 v2 l2. then_aborts (start_dictionary-Writes e2 [] v2 l2) (λ e3 v3 l3.
                  then_aborts
                    (add_dictionary_element-Writes boost field_peer_id (write source) e3 [] v3 l3
                      refl (λ e. cc) (fits field_peer_id (omega arith))
                      (some_byte (write source) (write-IsShort source).0)
                      (fits (write source) (write-IsShort source).1))
                    (λ e4 v4 l4. stop others (add_dictionary_element-aborts e4 v4 l4)))))
