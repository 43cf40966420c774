-- ===== src/NodeTree/Adding.antt =====
-- Adding a node to one bucket of the set: what becomes of it, of the others and of the tiling.
use mathlib.Core.List.{Perm, perm_middle, append_assoc}
use mathlib.Core.List.Perm
use torrent_sync.Common.{
  ◌∙◌, sym, ap, subst, ℕ, ◌≡◌, inl, inr, refl, Bool, true, false, ◌==◌, List, [], ◌∷◌, ◌++◌, ◌>>=◌,
  All, Outcome, returns, Bool-cases,
}
use torrent_sync.NodeData.Split.Range.{IsRange}
use torrent_sync.Node.{Node, is_bad}
use torrent_sync.NodeBucket.{NodeBucket, size, add}
use torrent_sync.NodeBucket.Order.{IsWithin, IsBucket}
use torrent_sync.NodeTree.{dht_k, write_back}
use torrent_sync.NodeBucket.Content.{bad_ones, bad_ones-All, bad-good-perm}
use torrent_sync.NodeBucket.Adding.{kept, Added, put, full, add-Added}
use torrent_sync.NodeTree.Tiling.{IsTile, Tiles, Spot, here, there}
use torrent_sync.NodeTree.Updates.{write_back-Tiles, write_back_here, write_back_there}
use torrent_sync.NodeTree.Contents.{contents, others, contents-Spot, contents-write_back}

-- The bucket of the set in which the node would stand is full.
pub record NoRoom (n : Node) (bs : List NodeBucket) : Type 0 where
  pub bucket : NodeBucket
  pub spot : Spot bucket bs
  pub within : IsWithin bucket.low bucket.high n
  pub is_full : size bucket ≡ dht_k

-- What adding a node to the set does: it is stored and only bad nodes are dropped for it, or no
-- node is lost and its bucket is full.
pub data BucketsAdded (now : ℕ) (n : Node) (bs : List NodeBucket)
    : Outcome (Bool × List NodeBucket) → Type 0 where
  stored :
      {r : Outcome (Bool × List NodeBucket)} (bs' : List NodeBucket) (dropped : List Node)
      → r ≡ returns (true, bs')
      → Tiles 0 bs'
      → All (λ x. is_bad now x ≡ true) dropped
      → Perm (n ∷ contents bs) (dropped ++ contents bs')
      → BucketsAdded now n bs r
  refused :
      {r : Outcome (Bool × List NodeBucket)} (bs' : List NodeBucket)
      → r ≡ returns (false, bs')
      → Tiles 0 bs'
      → Perm (contents bs) (contents bs')
      → NoRoom n bs'
      → BucketsAdded now n bs r

pub write_back_same : (b : NodeBucket) (bs : List NodeBucket) → Spot b bs → write_back b bs ≡ bs
write_back_same b _ (here {bs = bs}) = write_back_here b b bs refl refl
write_back_same b _ (there {x = x} {bs = bs} s d spot) =
    write_back_there b b x bs refl refl d ∙ ap (λ r. x ∷ r) (write_back_same b bs spot)

record Dropped (max_size now : ℕ) (b : NodeBucket) : Type 0 where
  nodes : List Node
  all_bad : All (λ x. is_bad now x ≡ true) nodes
  content : Perm b.elements (nodes ++ kept max_size now b)

kept-Dropped : (max_size now : ℕ) (b : NodeBucket) → Dropped max_size now b
kept-Dropped max_size now b = elim (Bool-cases (size b == max_size)) [
  | inl e ↦ record {
    nodes = bad_ones now b.elements;
    all_bad = bad_ones-All now b.elements;
    content = rw e (bad-good-perm now b.elements);
  }
  | inr e ↦ record { nodes = []; all_bad = tt; content = rw e (Perm.refl b.elements) }
]

put_content :
    (n : Node) (elements elements' dropped keeping rest all all' : List Node)
    → Perm all (elements ++ rest)
    → Perm all' (elements' ++ rest)
    → Perm elements (dropped ++ keeping)
    → Perm elements' (n ∷ keeping)
    → Perm (n ∷ all) (dropped ++ all')
put_content n elements elements' dropped keeping rest all all' p p' d q =
    let left : Perm (n ∷ all) (n ∷ (dropped ++ (keeping ++ rest))) = Perm.cons n (
      Perm.trans p (
        subst (Perm (elements ++ rest)) (append_assoc dropped keeping rest)
          (Perm.append_right rest d))) in
    let right : Perm (dropped ++ all') (dropped ++ (n ∷ (keeping ++ rest))) =
      Perm.append_left dropped (Perm.trans p' (Perm.append_right rest q)) in
    Perm.trans left (Perm.symm (Perm.trans right (perm_middle dropped (keeping ++ rest))))

abbrev pub added_to : ℕ → Node → NodeBucket → List NodeBucket → Outcome (Bool × List NodeBucket)
added_to now n b bs = add dht_k now n b >>= λ r. returns (r.0, write_back r.1 bs)

pub put-BucketsAdded :
    (now : ℕ) (n : Node) (b b' : NodeBucket) (bs : List NodeBucket)
    {r : Outcome (Bool × List NodeBucket)}
    → Spot b bs
    → IsTile b
    → Tiles 0 bs
    → r ≡ returns (true, write_back b' bs)
    → Perm b'.elements (n ∷ kept dht_k now b)
    → b'.low ≡ b.low
    → b'.high ≡ b.high
    → IsBucket dht_k b'
    → BucketsAdded now n bs r
put-BucketsAdded now n b b' bs spot t tiles e p l h v =
    let d = kept-Dropped dht_k now b in
    stored (write_back b' bs) d.nodes e
      (write_back-Tiles b' b 0 bs spot l h
        (record {
          bucket = v;
          free = t.free;
          range =
              subst (λ x. IsRange t.free x b'.high) (sym l)
                (subst (λ y. IsRange t.free b.low y) (sym h) t.range);
        })
        tiles)
      d.all_bad
      (put_content n b.elements b'.elements d.nodes (kept dht_k now b) (others b bs) (contents bs)
        (contents (write_back b' bs)) (contents-Spot b bs spot)
        (contents-write_back b' b bs spot l h) d.content p)

pub added_to-BucketsAdded :
    (now : ℕ) (n : Node) (b : NodeBucket) (bs : List NodeBucket)
    → Spot b bs
    → IsTile b
    → IsWithin b.low b.high n
    → Tiles 0 bs
    → BucketsAdded now n bs (added_to now n b bs)
added_to-BucketsAdded now n b bs spot t w tiles = go (add-Added dht_k now n b t.bucket w)
  where
    go : Added dht_k now n b (add dht_k now n b) → BucketsAdded now n bs (added_to now n b bs)
    go (put b' e room p l h v) = put-BucketsAdded now n b b' bs spot t tiles (rw e refl) p l h v
    go (full e sz same) =
        refused bs (rw (e, write_back_same b bs spot) refl) tiles (Perm.refl (contents bs))
          (record { bucket = b; spot = spot; within = w; is_full = sz })
