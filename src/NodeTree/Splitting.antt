-- ===== src/NodeTree/Splitting.antt =====
-- `NodeTree::split`: every node of the bucket goes to the half that it lies in, and no assertion
-- fails.
use mathlib.Core.List.{Perm, perm_middle, append-nil}
use mathlib.Core.List.Perm
use torrent_sync.Common.{
  ◌∙◌, sym, ap, subst, ℕ, zero, suc, ◌+◌, ◌≤◌, ◌<◌, ◌≡◌, inl, inr, refl, true, false, ◌==◌, Option,
  none, some, List, [], ◌∷◌, ◌++◌, length, length-append, All, Outcome, returns, arith, Bool-cases,
}
use torrent_sync.NodeData.{NodeData, value}
use torrent_sync.NodeData.Split.Range.{IsRange, IsRange-IsOrdered}
use torrent_sync.Node.{Node}
use torrent_sync.NodeBucket.{NodeBucket, empty_bucket, in_bounds, size}
use torrent_sync.NodeBucket.Order.{IsWithin, IsBucket}
use torrent_sync.NodeTree.{dht_k, distribute, split, Halved}
use torrent_sync.NodeData.Split.Halves.{Halves, split_in_half-Halves, split_in_half-none}
use torrent_sync.NodeBucket.Content.{length-perm}
use torrent_sync.NodeBucket.Lookup.{in_bounds_iff}
use torrent_sync.NodeBucket.Adding.{add-Grown}
use torrent_sync.NodeTree.Tiling.{IsTile}
use torrent_sync.NodeTree.Updates.{Cover, halved}

-- Two buckets with given bounds, the second right behind the first.
record Pair (low half_low half_high high : NodeData) (lower upper : NodeBucket) : Type 0 where
  lower_low : lower.low ≡ low
  lower_high : lower.high ≡ half_low
  upper_low : upper.low ≡ half_high
  upper_high : upper.high ≡ high
  lower_valid : IsBucket dht_k lower
  upper_valid : IsBucket dht_k upper

record Distributed (low half_low half_high high : NodeData) (xs : List Node)
    (lower upper : NodeBucket) (r : Outcome (NodeBucket × NodeBucket)) : Type 0 where
  lower' : NodeBucket
  upper' : NodeBucket
  result : r ≡ returns (lower', upper')
  pair : Pair low half_low half_high high lower' upper'
  content : Perm (lower'.elements ++ upper'.elements) (xs ++ (lower.elements ++ upper.elements))

module _ (now : ℕ) (low half_low half_high high : NodeData)
    (adjacent : value half_high ≡ value half_low + 1) where
  in_lower :
      (lower upper : NodeBucket) (x : Node)
      → Pair low half_low half_high high lower upper
      → IsWithin low high x
      → in_bounds lower x.id ≡ true
      → IsWithin lower.low lower.high x
  in_lower lower upper x p w e = (
    w.0,
    ((in_bounds_iff lower x.id p.lower_valid.bounds w.0).0 e).0,
    ((in_bounds_iff lower x.id p.lower_valid.bounds w.0).0 e).1,
  )

  in_upper :
      (lower upper : NodeBucket) (x : Node)
      → Pair low half_low half_high high lower upper
      → IsWithin low high x
      → in_bounds lower x.id ≡ false
      → IsWithin upper.low upper.high x × (in_bounds upper x.id ≡ true)
  in_upper lower upper x p w e =
      let l1 = ap value p.lower_low in
      let l2 = ap value p.lower_high in
      let u1 = ap value p.upper_low in
      let u2 = ap value p.upper_high in
      let i1 = in_bounds_iff lower x.id p.lower_valid.bounds w.0 in
      let above : value half_low < value x.id = ground (arith, i1, l1, l2, w) in
      let lo : value upper.low ≤ value x.id = omega (arith, above, u1) in
      let hi : value x.id ≤ value upper.high = omega (arith, u2, w) in
      ((w.0, lo, hi), (in_bounds_iff upper x.id p.upper_valid.bounds w.0).1 (lo, hi))

  distribute-Distributed :
      (xs : List Node) (lower upper : NodeBucket)
      → Pair low half_low half_high high lower upper
      → All (IsWithin low high) xs
      → length xs + (size lower + size upper) ≤ dht_k
      → Distributed low half_low half_high high xs lower upper (distribute now xs lower upper)
  unfolding distribute
  distribute-Distributed [] lower upper p w room = record {
    lower' = lower;
    upper' = upper;
    result = refl;
    pair = p;
    content = Perm.refl (lower.elements ++ upper.elements);
  }
  distribute-Distributed (x ∷ xs) lower upper p w room = elim (Bool-cases (in_bounds lower x.id)) [
    | inl e ↦
        let g =
          add-Grown dht_k now x lower p.lower_valid (in_lower lower upper x p w.0 e)
            (omega (arith, room)) in
        let rest =
          distribute-Distributed xs g.result upper
            (record {
              lower_low = g.same_low ∙ p.lower_low;
              lower_high = g.same_high ∙ p.lower_high;
              upper_low = p.upper_low;
              upper_high = p.upper_high;
              lower_valid = g.valid;
              upper_valid = p.upper_valid;
            })
            w.1
            (omega (arith, room, length-perm g.result.elements (x ∷ lower.elements) g.content)) in
        record {
          lower' = rest.lower';
          upper' = rest.upper';
          result = rw (e, g.added) rest.result;
          pair = rest.pair;
          content = Perm.trans rest.content (
              Perm.trans (Perm.append_left xs (Perm.append_right upper.elements g.content))
                (perm_middle xs (lower.elements ++ upper.elements)));
        }
    | inr e ↦
        let (within, inside) = in_upper lower upper x p w.0 e in
        let g = add-Grown dht_k now x upper p.upper_valid within (omega (arith, room)) in
        let rest =
          distribute-Distributed xs lower g.result
            (record {
              lower_low = p.lower_low;
              lower_high = p.lower_high;
              upper_low = g.same_low ∙ p.upper_low;
              upper_high = g.same_high ∙ p.upper_high;
              lower_valid = p.lower_valid;
              upper_valid = g.valid;
            })
            w.1
            (omega (arith, room, length-perm g.result.elements (x ∷ upper.elements) g.content)) in
        record {
          lower' = rest.lower';
          upper' = rest.upper';
          result = rw (e, inside, g.added) rest.result;
          pair = rest.pair;
          content = Perm.trans rest.content (
              Perm.trans
                (Perm.append_left xs (
                  Perm.trans (Perm.append_left lower.elements g.content)
                    (perm_middle lower.elements upper.elements)))
                (perm_middle xs (lower.elements ++ upper.elements)));
        }
  ]

-- What `split` returns for a bucket of the set.
pub data SplitResult (b : NodeBucket) (bs : List NodeBucket)
    : Outcome (Option Halved) → Type 0 where
  unsplit : {r : Outcome (Option Halved)} → r ≡ returns none → b.low ≡ b.high → SplitResult b bs r
  divided :
      {r : Outcome (Option Halved)} (lower upper : NodeBucket)
      → r ≡ returns (some (lower, upper, halved b lower upper bs))
      → Cover b lower upper
      → Perm (lower.elements ++ upper.elements) b.elements
      → SplitResult b bs r

empty_valid :
    (n : ℕ) (low high : NodeData) → IsRange n low high → IsBucket dht_k (empty_bucket low high)
empty_valid n low high r = record {
  bounds = IsRange-IsOrdered r;
  within = tt;
  sorted = tt;
  capacity = omega arith;
}

retile :
    (n : ℕ) (low high : NodeData) (b : NodeBucket)
    → IsRange n low high
    → b.low ≡ low
    → b.high ≡ high
    → IsBucket dht_k b
    → IsTile b
retile n low high b r l h v = record {
  bucket = v;
  free = n;
  range = subst (λ x. IsRange n x b.high) (sym l) (subst (λ y. IsRange n low y) (sym h) r);
}

divide :
    (now n : ℕ) (b : NodeBucket) (bs : List NodeBucket)
    → IsBucket dht_k b
    → Halves n b.low b.high
    → SplitResult b bs (split now b bs)
unfolding split
divide now n b bs v h =
    let d =
      distribute-Distributed now b.low h.half_low h.half_high b.high h.adjacent b.elements
        (empty_bucket b.low h.half_low) (empty_bucket h.half_high b.high)
        (record {
          lower_low = refl;
          lower_high = refl;
          upper_low = refl;
          upper_high = refl;
          lower_valid = empty_valid n b.low h.half_low h.lower;
          upper_valid = empty_valid n h.half_high b.high h.upper;
        })
        v.within (omega (arith, v.capacity)) in
    let content : Perm (d.lower'.elements ++ d.upper'.elements) b.elements =
      subst (Perm (d.lower'.elements ++ d.upper'.elements)) (append-nil b.elements) d.content in
    let sizes : (size d.upper' + size d.lower' == size b) ≡ true = ground (
      arith,
      length-perm (d.lower'.elements ++ d.upper'.elements) b.elements content,
      length-append d.lower'.elements d.upper'.elements,
    ) in
    divided d.lower' d.upper' (rw (h.splits, split, d.result, sizes) refl)
      (record {
        lower_tile =
            retile n b.low h.half_low d.lower' h.lower d.pair.lower_low d.pair.lower_high
              d.pair.lower_valid;
        upper_tile =
            retile n h.half_high b.high d.upper' h.upper d.pair.upper_low d.pair.upper_high
              d.pair.upper_valid;
        same_low = d.pair.lower_low;
        same_high = d.pair.upper_high;
        adjacent =
            ap value d.pair.upper_low ∙ h.adjacent ∙ ap (λ x. value x + 1) (sym d.pair.lower_high);
      })
      content

pub split-SplitResult :
    (now : ℕ) (b : NodeBucket) (bs : List NodeBucket) → IsTile b → SplitResult b bs (split now b bs)
split-SplitResult now b bs t = go t.free t.range
  where
    go : (n : ℕ) → IsRange n b.low b.high → SplitResult b bs (split now b bs)
    go zero r =
        let (same, nothing) = split_in_half-none r in
        unsplit {r = split now b bs} (unfold split in rw (nothing, split) refl) same
    go (suc n) r = divide now n b bs t.bucket (split_in_half-Halves n r)
