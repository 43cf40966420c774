-- ===== src/Message/Reply/Nodes.antt =====
-- The nodes of a find_node reply: packed one after the other, and parsed again.
use mathlib.Core.List.{append_assoc, append-nil}
use torrent_sync.Common.{
  returns_injective, ◌∙◌, sym, ap, subst, ℕ, zero, suc, ◌+◌, ◌-◌, ◌*◌, ◌^◌, ◌≤◌, ◌<◌, ◌≡◌, refl,
  true, leb, some, List, [], ◌∷◌, ◌++◌, map, length, length-append, take, drop, replicate, All,
  returns, arith,
}
use torrent_sync.NodeData.{NodeData, IsNodeData}
use torrent_sync.NodeData.Codec.{Buffer, Endian, write}
use torrent_sync.Node.{Endpoint, Node, packed_node_size, get_packed_node, pack_endpoint, parse_node}
use torrent_sync.Node.Packed.{parse_node-get_packed_node}
use torrent_sync.Bencode.Encoder.{resize}
use torrent_sync.Bencode.Encoder.Content.{copy_to-Copied, length-replicate}
use torrent_sync.Message.Reply.{copy_nodes, pack_nodes, parse_nodes}

-- A node that can be sent: its identifier and its IPv4 endpoint fit their words.
pub record IsPeer (n : Node) : Type 0 where
  pub words : IsNodeData n.id
  pub peer : Endpoint
  pub known : n.endpoint ≡ some peer
  pub address_fits : peer.address < 2 ^ 32
  pub port_fits : peer.port < 2 ^ 16

-- The node as it is received at the time `now`.
abbrev pub received : ℕ → Node → Node
received now n = record n { last_time_good = now; last_unanswered_queries = 0 }

pub record Packs (e : Endian) (n : Node) : Type 0 where
  pub bytes : Buffer
  packs : get_packed_node e n ≡ returns bytes
  size : length bytes ≡ 26
  parses :
      (stack now : ℕ) (garbage : NodeData)
      → parse_node e stack now garbage bytes ≡ returns (received now n)

pub IsPeer-Packs : (e : Endian) (n : Node) → IsPeer n → Packs e n
IsPeer-Packs e n h = record {
  bytes = bytes;
  packs = packs;
  size = unfold write pack_endpoint in refl;
  parses = λ stack now garbage.
      let r =
        parse_node-get_packed_node e stack now garbage n h.peer [] h.words h.known h.address_fits
          h.port_fits tt in
      ap (parse_node e stack now garbage)
        (sym (ap (λ l. l ++ []) (returns_injective (sym r.1 ∙ packs)) ∙ append-nil bytes))
      ∙ r.2
      ∙ ap
          (λ endpoint. returns (record {
            id = n.id;
            last_time_good = now;
            last_unanswered_queries = 0;
            endpoint = endpoint;
          }))
          (sym h.known);
}
  where
    bytes : Buffer
    bytes = write n.id ++ pack_endpoint e h.peer

    packs : get_packed_node e n ≡ returns bytes
    packs = unfold get_packed_node in rw h.known refl

-- The nodes of a reply, one after the other.
abbrev pub packed_nodes : (e : Endian) (ns : List Node) → All IsPeer ns → Buffer
packed_nodes e [] h = []
packed_nodes e (n ∷ ns) h = (IsPeer-Packs e n h.0).bytes ++ packed_nodes e ns h.1

pub length-packed_nodes :
    (e : Endian) (ns : List Node) (h : All IsPeer ns)
    → length (packed_nodes e ns h) ≡ length ns * 26
length-packed_nodes e [] h = refl
length-packed_nodes e (n ∷ ns) h =
    let p = IsPeer-Packs e n h.0 in
    omega
      (arith, length-append p.bytes (packed_nodes e ns h.1), p.size, length-packed_nodes e ns h.1)

-- What the copying loop leaves.
record Filled (e : Endian) (ns : List Node) (i : ℕ) (buf xs : Buffer) : Type 0 where
  filled : Buffer
  copies : copy_nodes e ns i buf ≡ returns (i + length xs, filled)
  front : take (i + length xs) filled ≡ take i buf ++ xs
  same_length : length filled ≡ length buf

copy_nodes-Filled :
    (e : Endian) (ns : List Node) (h : All IsPeer ns) (i : ℕ) (buf : Buffer)
    → i + length ns * 26 ≤ length buf
    → Filled e ns i buf (packed_nodes e ns h)
unfolding copy_nodes
copy_nodes-Filled e [] h i buf room =
    let here : i + 0 ≡ i = omega arith in
    record {
      filled = buf;
      copies = rw here refl;
      front = rw here (sym (append-nil (take i buf)));
      same_length = refl;
    }
copy_nodes-Filled e (n ∷ ns) h i buf room =
    let p = IsPeer-Packs e n h.0 in
    let xs = packed_nodes e ns h.1 in
    let c = copy_to-Copied i p.bytes buf (omega (arith, p.size, room)) in
    let r = copy_nodes-Filled e ns h.1 (i + 26) c.copied (omega (arith, room, c.same_length)) in
    let fits : leb (i + length p.bytes) (length buf) ≡ true = ground (arith, p.size, room) in
    let total : i + length (p.bytes ++ xs) ≡ i + 26 + length xs =
      omega (arith, length-append p.bytes xs, p.size) in
    let first : i + length p.bytes ≡ i + 26 = omega (arith, p.size) in
    record {
      filled = r.filled;
      copies = rw (p.packs, fits, c.copies, total) r.copies;
      front =
          ap (λ k. take k r.filled) total
          ∙ r.front
          ∙ ap (λ k. take k c.copied ++ xs) (sym first)
          ∙ ap (λ l. l ++ xs) c.prefix
          ∙ append_assoc (take i buf) p.bytes xs;
      same_length = r.same_length ∙ c.same_length;
    }

pub pack_nodes_lem :
    (e : Endian) (ns : List Node) (h : All IsPeer ns)
    → length ns ≤ 8
    → pack_nodes e ns ≡ returns (packed_nodes e ns h)
unfolding pack_nodes
pack_nodes_lem e ns h few = rw f.copies (ap returns cut)
  where
    buffer : Buffer
    buffer = replicate (packed_node_size * 8) 0

    f : Filled e ns 0 buffer (packed_nodes e ns h)
    f =
        copy_nodes-Filled e ns h 0 buffer
          (omega (arith, few, length-replicate (packed_node_size * 8) 0))

    no_more : 0 + length (packed_nodes e ns h) - length f.filled ≡ 0
    no_more = omega (
      arith,
      few,
      f.same_length,
      length-packed_nodes e ns h,
      length-replicate (packed_node_size * 8) 0,
    )

    cut : resize (0 + length (packed_nodes e ns h)) f.filled ≡ packed_nodes e ns h
    cut = unfold resize in rw no_more (append-nil _ ∙ f.front)

take_front :
    (xs ys : Buffer) (n : ℕ) → length xs ≡ n → (take n (xs ++ ys) ≡ xs) × (drop n (xs ++ ys) ≡ ys)
take_front [] ys n e = subst (λ k. (take k ys ≡ []) × (drop k ys ≡ ys)) e (refl, refl)
take_front (x ∷ xs) ys zero e = absurd (omega (arith, e))
take_front (x ∷ xs) ys (suc n) e =
    let r = take_front xs ys n (omega (arith, e)) in (ap (λ l. x ∷ l) r.0, r.1)

pub parse_nodes-packed_nodes :
    (e : Endian) (stack now : ℕ) (garbage : NodeData) (ns : List Node) (h : All IsPeer ns)
    (rounds : ℕ)
    → length ns ≤ rounds
    → parse_nodes e stack now garbage rounds (packed_nodes e ns h) ≡ returns (map (received now) ns)
unfolding parse_nodes
parse_nodes-packed_nodes e stack now garbage [] h zero r = refl
parse_nodes-packed_nodes e stack now garbage [] h (suc rounds) r = refl
parse_nodes-packed_nodes e stack now garbage (n ∷ ns) h zero r = absurd (omega (arith, r))
parse_nodes-packed_nodes e stack now garbage (n ∷ ns) h (suc rounds) r =
    let p = IsPeer-Packs e n h.0 in
    let xs = packed_nodes e ns h.1 in
    let long : leb packed_node_size (length (p.bytes ++ xs)) ≡ true =
      ground (arith, length-append p.bytes xs, p.size) in
    let t = take_front p.bytes xs 26 p.size in
    rw
      (
        long,
        t.0,
        t.1,
        p.parses stack now garbage,
        parse_nodes-packed_nodes e stack now garbage ns h.1 rounds (omega (arith, r)),
      )
      refl
