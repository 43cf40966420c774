-- ===== src/Node/Tests.antt =====
-- Runs of the nodes and of their packed form, and the theorems at concrete nodes.
use torrent_sync.Common.{
  ◌+◌, ◌*◌, ◌^◌, ◌≡◌, ◌==◌, if◌then◌else◌, ltb, not, ◌⊎◌, refl, true, false, some, [], ◌∷◌, ◌++◌,
  take, replicate, returns, throws, undefined, invalid_argument, length, arith,
}
use torrent_sync.NodeData.Codec.{Buffer, Endian, little, big, byte_at, min_value}
use torrent_sync.Node
use torrent_sync.Node.{
  Endpoint, Node, is_good, is_questionable, is_bad, set_good, copy, parse_node, get_packed_node,
}
use torrent_sync.Node.Freshness.{one_state, set_good_lasts, is_bad_mono}
use torrent_sync.Node.Packed.{
  parse_node-get_packed_node, get_packed_node-parse_node, parse_node_short, parse_node_reversed,
}

abbrev an_endpoint : Endpoint
an_endpoint = record { address = 2130706433; port = 6881 }

abbrev a_node : Node
a_node = record {
  id = record { p1 = 1; p2 = 2; p3 = 3 };
  last_time_good = 100;
  last_unanswered_queries = 11;
  endpoint = some an_endpoint;
}

abbrev packed : Buffer
packed = replicate 20 1 ++ 127 ∷ 0 ∷ 0 ∷ 1 ∷ 26 ∷ 225 ∷ []

one_state_example :
    ((is_good 1000 a_node ≡ true)
      × (is_questionable 1000 a_node ≡ false)
      × (is_bad 1000 a_node ≡ false))
    ⊎ (((is_good 1000 a_node ≡ false)
          × (is_questionable 1000 a_node ≡ true)
          × (is_bad 1000 a_node ≡ false))
        ⊎ ((is_good 1000 a_node ≡ false)
            × (is_questionable 1000 a_node ≡ false)
            × (is_bad 1000 a_node ≡ true)))
one_state_example = one_state 1000 a_node

run_is_bad : is_bad 1000 a_node ≡ true
unfolding is_bad is_good
run_is_bad = refl

is_bad_mono_example : is_bad 2000 a_node ≡ true
is_bad_mono_example = is_bad_mono 1000 2000 a_node (omega arith) run_is_bad

set_good_lasts_example :
    (is_good 950 (set_good 100 a_node) ≡ ltb 950 (100 + 900))
    × (is_questionable 950 (set_good 100 a_node) ≡ not (ltb 950 (100 + 900)))
    × (is_bad 950 (copy 100 a_node) ≡ false)
set_good_lasts_example = set_good_lasts 100 950 a_node

parse_node-get_packed_node_example :
    (bs : Buffer) × (get_packed_node little a_node ≡ returns bs)
    × (parse_node little 0 5 min_value (bs ++ [])
        ≡ returns (record a_node { last_time_good = 5; last_unanswered_queries = 0 }))
parse_node-get_packed_node_example =
    parse_node-get_packed_node little 0 5 min_value a_node an_endpoint [] (omega arith) refl
      (omega arith) (omega arith) tt

get_packed_node-parse_node_example :
    (n : Node) × (parse_node big 9 5 min_value packed ≡ returns n)
    × (get_packed_node big n ≡ returns (take 26 packed))
get_packed_node-parse_node_example =
    get_packed_node-parse_node big 9 5 min_value packed (omega arith) (omega arith)

abbrev cut_short : Buffer
cut_short = replicate 20 1

parse_node_short_example :
    parse_node little 0 5 min_value cut_short
    ≡ (if length cut_short == 20 then undefined else throws invalid_argument)
parse_node_short_example =
    parse_node_short little 0 5 min_value cut_short (omega arith) (omega arith)

-- The node that a little-endian host reads for 127.0.0.1:6881.
abbrev reversed_node : Node
reversed_node = record {
  id = record { p1 = 72340172838076673; p2 = 72340172838076673; p3 = 16843009 };
  last_time_good = 5;
  last_unanswered_queries = 0;
  endpoint = some (record { address = 16777343; port = 57626 });
}

run_parse_node : parse_node little 0 5 min_value packed ≡ returns reversed_node
unfolding parse_node Node.read Node.Codec.read Node.read_peer Node.add_bytes Node.Codec.htonl
    Node.Codec.htons
run_parse_node = refl

parse_node_reversed_example :
    reversed_node.endpoint
    ≡ some (record {
      address =
          byte_at packed 20
          + byte_at packed 21 * 2 ^ 8
          + byte_at packed 22 * 2 ^ 16
          + byte_at packed 23 * 2 ^ 24;
      port = byte_at packed 24 + byte_at packed 25 * 2 ^ 8;
    })
parse_node_reversed_example =
    parse_node_reversed 0 5 min_value packed reversed_node (omega arith) (omega arith)
      run_parse_node
