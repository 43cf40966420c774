-- ===== src/NodeTree/Updates.antt =====
-- Changing one bucket of the set, and putting two halves in the place of a bucket.
use torrent_sync.Common.{
  ◌∙◌, sym, ap, subst, ℕ, ◌+◌, ◌<◌, ◌≡◌, refl, true, false, List, [], ◌∷◌, arith, if◌then◌else◌,
}
use torrent_sync.NodeData.{value, eq}
use torrent_sync.NodeBucket.{NodeBucket}
use torrent_sync.NodeTree.{sort_by_bounds, insert_bucket, same_bounds, erase_bucket, write_back}
use torrent_sync.NodeTree.Tiling.{IsTile, Tiles, Spot, here, there, sorts, distinct}

same_as : (x y : NodeBucket) → x.low ≡ y.low → x.high ≡ y.high → same_bounds x y ≡ true
unfolding eq
same_as x y l h = ground arith

write_back_cons :
    (x b : NodeBucket) (bs : List NodeBucket)
    → write_back x (b ∷ bs) ≡ (if same_bounds b x then x ∷ bs else b ∷ write_back x bs)
unfolding write_back
write_back_cons x b bs = refl

pub write_back_here :
    (b' b : NodeBucket) (bs : List NodeBucket)
    → b'.low ≡ b.low
    → b'.high ≡ b.high
    → write_back b' (b ∷ bs) ≡ b' ∷ bs
write_back_here b' b bs l h = write_back_cons b' b bs ∙ rw (same_as b b' (sym l) (sym h)) refl

pub write_back_there :
    (b' b x : NodeBucket) (bs : List NodeBucket)
    → b'.low ≡ b.low
    → b'.high ≡ b.high
    → same_bounds x b ≡ false
    → write_back b' (x ∷ bs) ≡ x ∷ write_back b' bs
write_back_there b' b x bs l h d = write_back_cons b' x bs ∙ rw (l, h, d) refl

pub write_back-Tiles :
    (b' b : NodeBucket) (from : ℕ) (bs : List NodeBucket)
    → Spot b bs
    → b'.low ≡ b.low
    → b'.high ≡ b.high
    → IsTile b'
    → Tiles from bs
    → Tiles from (write_back b' bs)
write_back-Tiles b' b from _ (here {bs = bs}) l h new t =
    rw (write_back_here b' b bs l h)
      (ap value l ∙ t.0, new, subst (λ d. Tiles (value d + 1) bs) (sym h) t.2)
write_back-Tiles b' b from _ (there {x = x} {bs = bs} s d spot) l h new t =
    rw (write_back_there b' b x bs l h d)
      (t.0, t.1, write_back-Tiles b' b (value x.high + 1) bs spot l h new t.2)

-- A bucket below all those of a list goes to its front.
insert_front :
    (x : NodeBucket) (cs : List NodeBucket) (from : ℕ)
    → IsTile x
    → Tiles from cs
    → value x.high < from
    → insert_bucket x cs ≡ x ∷ cs
unfolding insert_bucket
insert_front x [] from hx t below = refl
insert_front x (c ∷ cs) from hx t below =
    let after : sort_by_bounds x c ≡ true = (sorts x c hx t.1).1 (omega (arith, t.0)) in
    let not_before : sort_by_bounds c x ≡ false =
      ground (arith, sorts c x t.1 hx, t.0, t.1.bucket.bounds.ordered, hx.bucket.bounds.ordered) in
    rw (not_before, after) refl

insert_later :
    (x c : NodeBucket) (cs : List NodeBucket)
    → sort_by_bounds c x ≡ true
    → insert_bucket x (c ∷ cs) ≡ c ∷ insert_bucket x cs
unfolding insert_bucket
insert_later x c cs h = rw h refl

erase_cons :
    (x b : NodeBucket) (bs : List NodeBucket)
    → erase_bucket x (b ∷ bs) ≡ (if same_bounds b x then bs else b ∷ erase_bucket x bs)
unfolding erase_bucket
erase_cons x b bs = refl

pub erase_here : (b : NodeBucket) (bs : List NodeBucket) → erase_bucket b (b ∷ bs) ≡ bs
erase_here b bs = erase_cons b b bs ∙ rw (same_as b b refl refl) refl

pub erase_there :
    (b x : NodeBucket) (bs : List NodeBucket)
    → same_bounds x b ≡ false
    → erase_bucket b (x ∷ bs) ≡ x ∷ erase_bucket b bs
erase_there b x bs d = erase_cons b x bs ∙ rw d refl

-- Two tiles that cover what a bucket covers.
pub record Cover (b lower upper : NodeBucket) : Type 0 where
  pub lower_tile : IsTile lower
  pub upper_tile : IsTile upper
  pub same_low : lower.low ≡ b.low
  pub same_high : upper.high ≡ b.high
  pub adjacent : value upper.low ≡ value lower.high + 1

abbrev pub halved : NodeBucket → NodeBucket → NodeBucket → List NodeBucket → List NodeBucket
halved b lower upper bs = insert_bucket lower (insert_bucket upper (erase_bucket b bs))

pub halved_here :
    (from : ℕ) (b lower upper : NodeBucket) (bs : List NodeBucket)
    → Cover b lower upper
    → Tiles from (b ∷ bs)
    → halved b lower upper (b ∷ bs) ≡ lower ∷ upper ∷ bs
halved_here from b lower upper bs c t =
    let o = c.lower_tile.bucket.bounds.ordered in
    let high_end : value upper.high ≡ value b.high = ap value c.same_high in
    rw
      (
        erase_cons b b bs,
        same_as b b refl refl,
        insert_front upper bs (value b.high + 1) c.upper_tile t.2 (omega (arith, high_end)),
        insert_front lower (upper ∷ bs) (value upper.low) c.lower_tile
            (refl, c.upper_tile, rw c.same_high t.2) (omega (arith, c.adjacent)),
      )
      refl

pub halved_there :
    (b lower upper x : NodeBucket) (bs : List NodeBucket)
    → Cover b lower upper
    → IsTile x
    → IsTile b
    → sort_by_bounds x b ≡ true
    → same_bounds x b ≡ false
    → halved b lower upper (x ∷ bs) ≡ x ∷ halved b lower upper bs
halved_there b lower upper x bs c hx hb s d =
    let before = (sorts x b hx hb).0 s in
    let low_end : value lower.low ≡ value b.low = ap value c.same_low in
    let o = c.lower_tile.bucket.bounds.ordered in
    rw
      (
        erase_cons b x bs,
        d,
        insert_later upper x (erase_bucket b bs)
            ((sorts x upper hx c.upper_tile).1 (omega (arith, before, low_end, o, c.adjacent))),
        insert_later lower x (insert_bucket upper (erase_bucket b bs))
            ((sorts x lower hx c.lower_tile).1 (omega (arith, before, low_end))),
      )
      refl

-- The set after a split: tiled again, with both halves in it.
pub record Tiled (from : ℕ) (lower upper : NodeBucket) (bs : List NodeBucket) : Type 0 where
  pub tiles : Tiles from bs
  pub lower_spot : Spot lower bs
  pub upper_spot : Spot upper bs

pub halved-Tiled :
    (b lower upper : NodeBucket) (from : ℕ) (bs : List NodeBucket)
    → Spot b bs
    → Cover b lower upper
    → IsTile b
    → Tiles from bs
    → Tiled from lower upper (halved b lower upper bs)
halved-Tiled b lower upper from _ (here {bs = bs}) c hb t =
    let o = c.lower_tile.bucket.bounds.ordered in
    rw (halved_here from b lower upper bs c t) (record {
      tiles =
          (ap value c.same_low ∙ t.0, c.lower_tile, (c.adjacent, c.upper_tile, rw c.same_high t.2));
      lower_spot = here;
      upper_spot =
          there ((sorts lower upper c.lower_tile c.upper_tile).1 (omega (arith, c.adjacent)))
            (distinct lower upper (omega (arith, c.adjacent, o))) here;
    })
halved-Tiled b lower upper from _ (there {x = x} {bs = bs} s d spot) c hb t =
    let rest = halved-Tiled b lower upper (value x.high + 1) bs spot c hb t.2 in
    let before = (sorts x b t.1 hb).0 s in
    let low_end : value lower.low ≡ value b.low = ap value c.same_low in
    let ox = t.1.bucket.bounds.ordered in
    let o = c.lower_tile.bucket.bounds.ordered in
    rw (halved_there b lower upper x bs c t.1 hb s d) (record {
      tiles = (t.0, t.1, rest.tiles);
      lower_spot =
          there ((sorts x lower t.1 c.lower_tile).1 (omega (arith, before, low_end)))
            (distinct x lower (omega (arith, before, low_end, ox))) rest.lower_spot;
      upper_spot =
          there ((sorts x upper t.1 c.upper_tile).1 (omega (arith, before, low_end, o, c.adjacent)))
            (distinct x upper (omega (arith, before, low_end, ox, o, c.adjacent))) rest.upper_spot;
    })
