-- ===== src/NodeTree/Removal.antt =====
-- `removeNode`, `clear`, the constructor and `size` of the tree.
use mathlib.Core.List.{Perm}
use mathlib.Core.List.Perm
use torrent_sync.Common.{
  ◌∙◌, sym, ap, subst, ℕ, ◌+◌, ◌≡◌, ◌≢◌, refl, true, some, List, [], ◌∷◌, length, length-append,
  All, Outcome, returns, arith,
}
use torrent_sync.NodeData.{NodeData, IsNodeData}
use torrent_sync.NodeData.Split.Range.{IsRange, in_p1, IsRange-IsOrdered}
use torrent_sync.NodeData.Codec.{min_value, max_value}
use torrent_sync.Node.{Node}
use torrent_sync.NodeBucket.{empty_bucket, NodeBucket, in_bounds, remove}
use torrent_sync.NodeBucket.Lookup.{in_bounds_iff}
use torrent_sync.NodeBucket.Removing.{Removed, gone, not_there, remove-Removed, remove-IsBucket}
use torrent_sync.NodeTree.{
  NodeTree, find_bucket, write_back, remove_node, clear, make_tree, sizes, dht_k, insert_bucket,
}
use torrent_sync.NodeTree.Tiling.{IsTile, IsTree, Finds, find_bucket-Finds}
use torrent_sync.NodeTree.Updates.{write_back-Tiles}
use torrent_sync.NodeTree.Contents.{contents, others, contents-Spot, contents-write_back}
use torrent_sync.NodeTree.Adding.{write_back_same}
use torrent_sync.NodeTree.Lookup.{nowhere}
use torrent_sync.NodeTree

-- What `removeNode` does to the tree.
pub data NodeRemoved (d : NodeData) (t : NodeTree) : Outcome NodeTree → Type 0 where
  erased :
      {r : Outcome NodeTree} (n : Node) (t' : NodeTree)
      → r ≡ returns t'
      → IsTree t'
      → t'.node ≡ t.node
      → n.id ≡ d
      → Perm (contents t.buckets) (n ∷ contents t'.buckets)
      → NodeRemoved d t r
  unchanged :
      {r : Outcome NodeTree}
      → r ≡ returns t
      → All (λ x. x.id ≢ d) (contents t.buckets)
      → NodeRemoved d t r

-- On a valid tree `removeNode` always returns a valid tree: exactly one node with the identifier
-- of the argument is gone, or no node of the tree has it and the tree is as before.
pub remove_node-NodeRemoved :
    (n : Node) (t : NodeTree)
    → IsNodeData n.id
    → IsTree t
    → NodeRemoved n.id t (remove_node (some n) t)
remove_node-NodeRemoved n t hn v = go (remove-Removed n.id f.bucket)
  where
    f : Finds 0 n.id t.buckets
    f = find_bucket-Finds 0 n.id t.buckets hn (omega arith) v.tiles

    after : NodeBucket
    after = (remove n.id f.bucket).1

    inside : in_bounds f.bucket n.id ≡ true
    inside = (in_bounds_iff f.bucket n.id f.tile.bucket.bounds hn).1 (f.above_low, f.below_high)

    result : remove_node (some n) t ≡ returns (record t { buckets = write_back after t.buckets })
    result = unfold remove_node in rw (f.found, inside) refl

    go : Removed n.id f.bucket (remove n.id f.bucket) → NodeRemoved n.id t (remove_node (some n) t)
    go (gone m e same p l h) =
        erased m (record t { buckets = write_back after t.buckets }) result
          (record {
            tiles = write_back-Tiles after f.bucket 0 t.buckets f.spot l h tile v.tiles;
            own = v.own;
          })
          refl same
          (Perm.trans (contents-Spot f.bucket t.buckets f.spot) (
            Perm.trans (Perm.append_right (others f.bucket t.buckets) p)
              (Perm.cons m (Perm.symm (contents-write_back after f.bucket t.buckets f.spot l h)))))
      where
        tile : IsTile after
        tile = record {
          bucket = remove-IsBucket dht_k n.id f.bucket f.tile.bucket;
          free = f.tile.free;
          range =
              subst (λ x. IsRange f.tile.free x after.high) (sym l)
                (subst (λ x. IsRange f.tile.free f.bucket.low x) (sym h) f.tile.range);
        }
    go (not_there e all) =
        unchanged
          (result
            ∙ ap (λ bs. returns (record t { buckets = bs }))
                (ap (λ r. write_back r.1 t.buckets) e ∙ write_back_same f.bucket t.buckets f.spot))
          (nowhere n.id f.bucket 0 t.buckets f.spot f.tile f.above_low f.below_high v.tiles all)

sizes_lem : (init : ℕ) (bs : List NodeBucket) → sizes init bs ≡ init + length (contents bs)
unfolding sizes
sizes_lem init [] = omega arith
sizes_lem init (b ∷ bs) =
    omega (arith, sizes_lem (init + length b.elements) bs, length-append b.elements (contents bs))

-- `size` is the number of the nodes that the buckets hold.
pub size-contents : (t : NodeTree) → NodeTree.size t ≡ length (contents t.buckets)
unfolding NodeTree.size
size-contents t = omega (arith, sizes_lem 0 t.buckets)

whole_range : IsRange (97 + 63) min_value max_value
whole_range =
    in_p1 0 63 refl (record { leading = 0; fits = omega arith; low_word = refl; high_word = refl })
      refl refl refl refl

-- For an identifier in range the constructor makes a valid tree that holds no node.
pub make_tree-IsTree :
    (own : NodeData)
    → IsNodeData own
    → IsTree (make_tree own) × (contents (make_tree own).buckets ≡ [])
unfolding make_tree clear insert_bucket
make_tree-IsTree own h = (
  record {
    tiles = (
      refl,
      record {
        bucket = record {
          bounds = IsRange-IsOrdered whole_range;
          within = tt;
          sorted = tt;
          capacity = omega arith;
        };
        free = 160;
        range = whole_range;
      },
      refl,
    );
    own = h;
  },
  refl,
)

-- `clear` makes a valid tree that holds no node, with the same identifier of its own.
pub make_tree-buckets :
    (own : NodeData) → (make_tree own).buckets ≡ empty_bucket min_value max_value ∷ []
unfolding make_tree clear insert_bucket
make_tree-buckets own = refl

pub clear-make_tree : (t : NodeTree) → clear t ≡ make_tree t.node
unfolding make_tree clear insert_bucket
clear-make_tree t = refl
