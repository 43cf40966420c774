-- ===== src/Node/Packed.antt =====
-- The packed form of a node: 20 bytes of identifier, 4 of address and 2 of port.
use mathlib.Core.List.{append_assoc}
use native.Mathlib.Decide.{dec_lt}
use torrent_sync.Common.{
  if◌then◌else◌, ◌==◌, inl, inr, Bool-cases, returns_injective, ◌∙◌, ap, sym, ℕ, zero, suc, ◌+◌,
  ◌*◌, ◌^◌, ◌≤◌, ◌<◌, ◌≡◌, ◌≢◌, refl, [], ◌∷◌, ◌++◌, length, take, drop, arith, returns, throws,
  undefined, invalid_argument, some, ltb, true, false, All-append,
}
use torrent_sync.NodeData.{NodeData, IsNodeData}
use torrent_sync.NodeData.Codec.{Buffer, Endian, little, big, htonl, htons, write, byte_at}
use torrent_sync.NodeData.Codec.BigEndian.{IsBytes}
use torrent_sync.NodeData.Codec.RoundTrip.{
  parsed, read_lem, read-write, write-read, write-IsBytes, read_short, length-drop,
  take-append-take,
}
use torrent_sync.NodeData.Codec
use torrent_sync.Node.{
  Node, Endpoint, Endpoint_ext, add_bytes, read_peer, parse_node, pack_endpoint, get_packed_node,
}
use torrent_sync.Node.Peer.{
  peer_of, read_peer_six, pack_endpoint-peer_of, read_peer-pack_endpoint, split_six,
}

parse_enough :
    (e : Endian) (g now : ℕ) (garbage : NodeData) (bs : Buffer) (p : Endpoint)
    → 26 ≤ length bs
    → IsBytes bs
    → read_peer e g (drop 20 bs) ≡ returns p
    → parse_node e g now garbage bs
      ≡ returns (record {
        id = parsed bs;
        last_time_good = now;
        last_unanswered_queries = 0;
        endpoint = some p;
      })
unfolding parse_node
parse_enough e g now garbage bs p long bytes peer =
    let l : ltb (length (drop 20 bs)) 6 ≡ false = ground (arith, length-drop 20 bs) in
    let s : ltb 0 (length (drop 20 bs)) ≡ true = ground (arith, length-drop 20 bs) in
    rw (read_lem bs (omega arith) bytes, s, l, peer) refl

-- Parsing at least 26 bytes gives a node, whatever the memory held before, and packing that node
-- gives the first 26 bytes back, on hosts of either byte order.
pub get_packed_node-parse_node :
    (e : Endian) (stack now : ℕ) (garbage : NodeData) (bs : Buffer)
    → 26 ≤ length bs
    → IsBytes bs
    → (n : Node) × (parse_node e stack now garbage bs ≡ returns n)
      × (get_packed_node e n ≡ returns (take 26 bs))
get_packed_node-parse_node e stack now garbage bs long bytes =
    let (a, b, c, d, h, l, rest, split, six) = split_six bs long bytes in
    let p = peer_of e a b c d h l in
    let peer : read_peer e stack (drop 20 bs) ≡ returns p =
      rw split (read_peer_six e stack a b c d h l rest six) in
    let head : take 6 (drop 20 bs) ≡ a ∷ b ∷ c ∷ d ∷ h ∷ l ∷ [] = rw split refl in
    (
      record {
        id = parsed bs;
        last_time_good = now;
        last_unanswered_queries = 0;
        endpoint = some p;
      },
      parse_enough e stack now garbage bs p long bytes peer,
      unfold get_packed_node in
          rw
            (
              pack_endpoint-peer_of e a b c d h l six,
              write-read bs (omega arith) bytes (read_lem bs (omega arith) bytes),
              ← head,
            )
            (ap returns (take-append-take 20 6 bs)),
    )

-- Packing a node and parsing the bytes gives its identifier and endpoint back, and a fresh state.
pub parse_node-get_packed_node :
    (e : Endian) (stack now : ℕ) (garbage : NodeData) (n : Node) (p : Endpoint) (rest : Buffer)
    → IsNodeData n.id
    → n.endpoint ≡ some p
    → p.address < 2 ^ 32
    → p.port < 2 ^ 16
    → IsBytes rest
    → (bs : Buffer) × (get_packed_node e n ≡ returns bs)
      × (parse_node e stack now garbage (bs ++ rest)
          ≡ returns (record {
            id = n.id;
            last_time_good = now;
            last_unanswered_queries = 0;
            endpoint = some p;
          }))
parse_node-get_packed_node e stack now garbage n p rest words has ha hp bytes = (
  write n.id ++ pack_endpoint e p,
  unfold get_packed_node in rw has refl,
  parse_enough e stack now garbage bytes' p (unfold write pack_endpoint in omega arith) whole
        (unfold write in read_peer-pack_endpoint e stack p rest ha hp)
      ∙ ap (λ d. returns (fresh d)) same,
)
  where
    bytes' : Buffer
    bytes' = (write n.id ++ pack_endpoint e p) ++ rest

    fresh : NodeData → Node
    fresh d = record {
      id = d;
      last_time_good = now;
      last_unanswered_queries = 0;
      endpoint = some p;
    }

    tail : IsBytes (pack_endpoint e p ++ rest)
    tail =
        All-append (λ b. b < 256) (pack_endpoint e p) rest (unfold pack_endpoint in omega arith)
          bytes

    assoc : bytes' ≡ write n.id ++ (pack_endpoint e p ++ rest)
    assoc = append_assoc (write n.id) (pack_endpoint e p) rest

    whole : IsBytes bytes'
    whole = rw assoc (All-append (λ b. b < 256) (write n.id) _ (write-IsBytes n.id) tail)

    long : 20 ≤ length bytes'
    long = unfold write in omega arith

    same : parsed bytes' ≡ n.id
    same =
        returns_injective
          (sym (read_lem bytes' long whole) ∙ ap Codec.read assoc ∙ read-write n.id _ words tail)

empty : (bs : Buffer) → length bs ≡ 0 → bs ≡ []
empty [] h = refl
empty (b ∷ bs) h = absurd (omega arith)

-- Too few bytes: below 20, or from 21 to 25, `read` throws. At exactly 20 the length check lets
-- the buffer through, and `read` reads past its end.
pub parse_node_short :
    (e : Endian) (stack now : ℕ) (garbage : NodeData) (bs : Buffer)
    → length bs < 26
    → IsBytes bs
    → parse_node e stack now garbage bs
      ≡ (if length bs == 20 then undefined else throws invalid_argument)
parse_node_short e stack now garbage bs short bytes = elim (Bool-cases (length bs == 20)) [
  | inl twenty ↦ rw twenty (reading (ground arith))
  | inr other ↦ rw other (throwing (ground arith))
]
  where
    throwing : length bs ≢ 20 → parse_node e stack now garbage bs ≡ throws invalid_argument
    throwing other = elim (dec_lt (length bs) 20) [
      | yes h ↦ unfold parse_node in rw (read_short bs h) refl
      | no h ↦
          let l : ltb (length (drop 20 bs)) 6 ≡ true = ground (arith, length-drop 20 bs) in
          let s : ltb 0 (length (drop 20 bs)) ≡ true = ground (arith, length-drop 20 bs) in
          unfold parse_node in rw (read_lem bs (omega arith) bytes, s, l) refl
    ]

    reading : length bs ≡ 20 → parse_node e stack now garbage bs ≡ undefined
    reading twenty =
        let none_left : drop 20 bs ≡ [] = empty _ (omega (arith, length-drop 20 bs)) in
        unfold parse_node in
        rw (read_lem bs (omega arith) bytes, none_left) (unfold read_peer add_bytes in refl)

byte_at-drop : (n i : ℕ) (bs : Buffer) → byte_at (drop n bs) i ≡ byte_at bs (n + i)
byte_at-drop zero i bs = ap (byte_at bs) (omega arith)
byte_at-drop (suc n) i [] = refl
byte_at-drop (suc n) i (b ∷ bs) =
    let e : suc n + i ≡ suc (n + i) = omega arith in rw e (byte_at-drop n i bs)

-- On a little-endian host the address and the port of the endpoint are the bytes of the message
-- in reverse: network order a.b.c.d becomes d.c.b.a.
pub parse_node_reversed :
    (stack now : ℕ) (garbage : NodeData) (bs : Buffer) (n : Node)
    → 26 ≤ length bs
    → IsBytes bs
    → parse_node little stack now garbage bs ≡ returns n
    → n.endpoint
      ≡ some (record {
        address =
            byte_at bs 20 + byte_at bs 21 * 2 ^ 8 + byte_at bs 22 * 2 ^ 16 + byte_at bs 23 * 2 ^ 24;
        port = byte_at bs 24 + byte_at bs 25 * 2 ^ 8;
      })
parse_node_reversed stack now garbage bs n long bytes e =
    let (a, b, c, d, h, l, rest, split, six) = split_six bs long bytes in
    let p = peer_of little a b c d h l in
    let peer : read_peer little stack (drop 20 bs) ≡ returns p =
      rw split (read_peer_six little stack a b c d h l rest six) in
    let found = sym e ∙ parse_enough little stack now garbage bs p long bytes peer in
    ap (λ m. m.endpoint) (returns_injective found)
    ∙ ap some (
        Endpoint_ext
          (unfold htonl in
            omega (
              arith,
              at bs 0,
              at bs 1,
              at bs 2,
              at bs 3,
              byte_of split 0,
              byte_of split 1,
              byte_of split 2,
              byte_of split 3,
            ))
          (unfold htons in omega (arith, at bs 4, at bs 5, byte_of split 4, byte_of split 5)))
  where
    at : (bs : Buffer) (i : ℕ) → byte_at (drop 20 bs) i ≡ byte_at bs (20 + i)
    at bs i = byte_at-drop 20 i bs

    byte_of : {r s : Buffer} → r ≡ s → (i : ℕ) → byte_at r i ≡ byte_at s i
    byte_of same i = ap (λ r. byte_at r i) same
