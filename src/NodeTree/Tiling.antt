-- ===== src/NodeTree/Tiling.antt =====
-- The invariant of the tree: its buckets tile the identifiers from 0 to 2 ^ 160 - 1, in order.
use torrent_sync.Common.{
  ◌∙◌, ℕ, ◌+◌, ◌^◌, ◌≤◌, ◌<◌, ◌≡◌, ◌↔◌, inl, inr, refl, true, false, List, [], ◌∷◌, returns, arith,
  Bool-cases, if◌then◌else◌,
}
use torrent_sync.NodeData.{NodeData, IsNodeData, value, eq, lt}
use torrent_sync.NodeData.Order.{lt_iff}
use torrent_sync.NodeData.Split.Range.{IsRange}
use torrent_sync.NodeBucket.{NodeBucket}
use torrent_sync.NodeBucket.Order.{IsBucket}
use torrent_sync.NodeTree.{NodeTree, dht_k, sort_by_bounds, same_bounds, find_bucket}

-- A bucket within its capacity whose bounds are all the identifiers with the same leading bits.
pub record IsTile (b : NodeBucket) : Type 0 where
  pub bucket : IsBucket dht_k b
  pub free : ℕ
  pub range : IsRange free b.low b.high

-- The buckets cover the numbers from `from` to 2 ^ 160 - 1, one after the other.
abbrev pub Tiles : ℕ → List NodeBucket → Type 0
Tiles from [] = from ≡ 2 ^ 160
Tiles from (b ∷ bs) = (value b.low ≡ from) × IsTile b × Tiles (value b.high + 1) bs

pub record IsTree (t : NodeTree) : Type 0 where
  pub tiles : Tiles 0 t.buckets
  pub own : IsNodeData t.node

-- The bucket stands in the set, and those before it have other bounds.
pub data Spot (b : NodeBucket) : List NodeBucket → Type 0 where
  here : {bs : List NodeBucket} → Spot b (b ∷ bs)
  there :
      {x : NodeBucket} {bs : List NodeBucket}
      → sort_by_bounds x b ≡ true
      → same_bounds x b ≡ false
      → Spot b bs
      → Spot b (x ∷ bs)

pub sorts :
    (x y : NodeBucket)
    → IsTile x
    → IsTile y
    → (sort_by_bounds x y ≡ true) ↔ (value x.high < value y.low)
unfolding sort_by_bounds
sorts x y hx hy = lt_iff x.high y.low hx.bucket.bounds.high_words hy.bucket.bounds.low_words

-- `findBucket` on a tiled space always returns a bucket, and the identifier lies in it.
pub record Finds (from : ℕ) (d : NodeData) (bs : List NodeBucket) : Type 0 where
  pub bucket : NodeBucket
  pub found : find_bucket d bs ≡ returns bucket
  pub spot : Spot bucket bs
  pub behind : from ≤ value bucket.low
  pub tile : IsTile bucket
  pub above_low : value bucket.low ≤ value d
  pub below_high : value d ≤ value bucket.high

pub find_bucket_cons :
    (d : NodeData) (b : NodeBucket) (bs : List NodeBucket)
    → find_bucket d (b ∷ bs) ≡ (if lt b.high d then find_bucket d bs else returns b)
unfolding find_bucket sort_by_bounds
find_bucket_cons d b bs = ground arith

pub distinct : (x y : NodeBucket) → value x.low < value y.low → same_bounds x y ≡ false
unfolding eq
distinct x y h = ground arith

pub find_bucket-Finds :
    (from : ℕ) (d : NodeData) (bs : List NodeBucket)
    → IsNodeData d
    → from ≤ value d
    → Tiles from bs
    → Finds from d bs
find_bucket-Finds from d [] hd h t = absurd (omega arith)
find_bucket-Finds from d (b ∷ bs) hd h t =
    let o = t.1.bucket.bounds in
    let order = lt_iff b.high d o.high_words hd in
    elim (Bool-cases (lt b.high d)) [
      | inl e ↦
          let rest = find_bucket-Finds (value b.high + 1) d bs hd (omega (arith, order.0 e)) t.2 in
          record {
            bucket = rest.bucket;
            found = find_bucket_cons d b bs ∙ rw e rest.found;
            spot =
                there ((sorts b rest.bucket t.1 rest.tile).1 (omega (arith, rest.behind)))
                  (distinct b rest.bucket (omega (arith, o.ordered, rest.behind))) rest.spot;
            behind = omega (arith, o.ordered, rest.behind, t.0);
            tile = rest.tile;
            above_low = rest.above_low;
            below_high = rest.below_high;
          }
      | inr e ↦ record {
        bucket = b;
        found = find_bucket_cons d b bs ∙ rw e refl;
        spot = here;
        behind = omega (arith, t.0);
        tile = t.1;
        above_low = omega (arith, t.0, h);
        below_high = ground (arith, order);
      }
    ]
