-- ===== src/RoutingTable/Answers/Arrivals.antt =====
-- A datagram that fits the buffer is parsed as it was sent, and nothing is known of its sender in a
-- tree as the constructor makes it.
use mathlib.Core.List.{Mem, not-mem-nil, append-nil}
use torrent_sync.Common.{
  ap, sym, subst, ◌∙◌, ℕ, ◌≡◌, refl, ◌-◌, ◌≤◌, List, [], ◌∷◌, ◌++◌, length, length-append, take,
  take_all, replicate, none, some, Option, Outcome, returns, arith, min,
}
use torrent_sync.NodeData.{NodeData, IsNodeData}
use torrent_sync.NodeData.Codec.{Buffer, Endian, from_buffer, write, read}
use torrent_sync.NodeData.Codec.Constructor.{from_buffer-read}
use torrent_sync.NodeData.Codec.RoundTrip.{write-IsBytes, read-write}
use torrent_sync.Node.{Node}
use torrent_sync.NodeBucket.Lookup.{Found, hit, miss}
use torrent_sync.NodeTree.{make_tree, get_node}
use torrent_sync.NodeData.Codec.{min_value, max_value}
use torrent_sync.NodeBucket.{NodeBucket, empty_bucket, find_node}
use torrent_sync.NodeTree.Closest.{
  closest_or_match, insert_buckets, insert_all, from_left, back_one,
}
use torrent_sync.NodeTree.Tiling.{Spot, here, there, Finds, find_bucket-Finds}
use torrent_sync.NodeTree.Contents.{contents}
use torrent_sync.NodeTree.Lookup.{get_node-Found}
use torrent_sync.NodeTree.Removal.{make_tree-IsTree, make_tree-buckets}
use torrent_sync.NodeTree.Closest.{get_closest_nodes, visited}
use torrent_sync.Bencode.Encoder.{resize}
use torrent_sync.Message.{Message, parse_message}
use torrent_sync.Message.Query.RoundTrip.{write-length}
use torrent_sync.RoutingTable.{Host}
use torrent_sync.RoutingTable.Receiving.{
  filled, message_buffer_size, value_of, parse, parse_message_ends,
}

take-append_self : {A : Type 0} (xs ys : List A) → take (length xs) (xs ++ ys) ≡ xs
take-append_self [] [] = refl
take-append_self [] (y ∷ ys) = refl
take-append_self (x ∷ xs) ys = ap (λ zs. x ∷ zs) (take-append_self xs ys)

resize_back :
    (n k : ℕ) (d : Buffer) → length d ≤ n → k ≡ length d → resize k (resize n (take n d)) ≡ d
unfolding resize
resize_back n k d h e =
    rw (e, take_all n d h, take_all n d h, take-append_self d (replicate (n - length d) 0))
      (ap (λ i. d ++ replicate i 0) none_left ∙ append-nil d)
  where
    none_left : length d - length (d ++ replicate (n - length d) 0) ≡ 0
    none_left = omega (arith, length-append d (replicate (n - length d) 0))

-- What the handler reads of a datagram that fits the buffer.
pub resize-filled :
    (d : Buffer)
    → length d ≤ message_buffer_size
    → resize (min message_buffer_size (length d)) (filled d) ≡ d
unfolding filled
resize-filled d h =
    resize_back message_buffer_size (min message_buffer_size (length d)) d h (omega (arith, h))

value_of-eq :
    {A : Type 0} {a : A} (o : Option A) (p : (a : A) × (o ≡ some a)) → o ≡ some a → value_of o p ≡ a
value_of-eq none p e = cc
value_of-eq (some b) p e = cc

pub parse-eq :
    (h : Host) (bytes : Buffer) {r : Outcome (Option Message)}
    → parse_message h.boost h.reserve bytes ≡ some r
    → parse h.boost h.reserve bytes ≡ r
unfolding parse
parse-eq h bytes e =
    value_of-eq (parse_message h.boost h.reserve bytes) (parse_message_ends h.boost h.reserve bytes)
      e

pub from_buffer-write :
    (e : Endian) (d : NodeData) → IsNodeData d → from_buffer e (write d) ≡ returns d
from_buffer-write e d h =
    from_buffer-read e (write d) (write-IsBytes d)
    ∙ rw (write-length d) (ap read (sym (append-nil (write d))) ∙ read-write d [] h tt)

module _ (own d : NodeData) (ho : IsNodeData own) (hd : IsNodeData d) where
  pub get_node-empty : get_node d (make_tree own) ≡ returns none
  get_node-empty =
      let (o, e, found) = get_node-Found d (make_tree own) hd (make_tree-IsTree own ho).0 in
      e ∙ ap returns (missing o found)
    where
      missing : (o : Option Node) → Found d (contents (make_tree own).buckets) o → o ≡ none
      missing o (hit n e m same) =
          absurd (not-mem-nil (subst (Mem n) (make_tree-IsTree own ho).1 m))
      missing o (miss e all) = e

  pub get_closest_nodes-empty : get_closest_nodes d (make_tree own) ≡ returns []
  unfolding get_closest_nodes
  get_closest_nodes-empty = rw (f.found, only f.spot) all_of_none
    where
      f : Finds 0 d (make_tree own).buckets
      f =
          find_bucket-Finds 0 d (make_tree own).buckets hd (omega arith)
            (make_tree-IsTree own ho).0.tiles

      only :
          {b : NodeBucket} → Spot b (make_tree own).buckets → b ≡ empty_bucket min_value max_value
      only {b = b} h = first (subst (Spot b) (make_tree-buckets own) h)
        where
          first : {x : NodeBucket} → Spot b (x ∷ []) → b ≡ x
          first here = refl
          first (there s other spot) = elim spot [ ]

      all_of_none : returns (closest_or_match d (make_tree own) (find_node d [])) ≡ returns []
      all_of_none =
          unfold closest_or_match find_node visited in
          rw (make_tree-buckets own)
            (unfold insert_buckets insert_all from_left back_one in ground arith)
