-- ===== src/NodeBucket/Removing.antt =====
-- `remove` of torrentsync/dht/NodeBucket.h.
use mathlib.Core.List.{Perm}
use mathlib.Core.List.Perm
use torrent_sync.Common.{
  sym, ap, ℕ, suc, ◌≤◌, ◌≡◌, ◌≢◌, inl, inr, refl, Bool, true, false, Option, none, some, List, [],
  ◌∷◌, length, All, arith, Bool-cases,
}
use torrent_sync.NodeData.{NodeData, value, eq}
use torrent_sync.NodeData.Order.{eq_iff}
use torrent_sync.Node.{Node}
use torrent_sync.NodeBucket.{NodeBucket, put_back, remove_first, remove}
use torrent_sync.NodeBucket.Order.{IsWithin, IsSorted, IsBucket}

-- What the loop of `remove` leaves.
data Taken (d : NodeData) (xs : List Node) : Option (List Node) → Type 0 where
  taken :
      {r : Option (List Node)} (n : Node) (ys : List Node)
      → r ≡ some ys
      → n.id ≡ d
      → Perm xs (n ∷ ys)
      → Taken d xs r
  absent : {r : Option (List Node)} → r ≡ none → All (λ n. n.id ≢ d) xs → Taken d xs r

Taken-put_back :
    (d : NodeData) (x : Node) (xs : List Node) {r : Option (List Node)}
    → x.id ≢ d
    → Taken d xs r
    → Taken d (x ∷ xs) (put_back x r)
Taken-put_back d x xs other (taken n ys e same p) =
    rw e (taken n (x ∷ ys) refl same (Perm.trans (Perm.cons x p) (Perm.swap n x ys)))
Taken-put_back d x xs other (absent e all) = rw e (absent refl (other, all))

remove_first-Taken : (d : NodeData) (xs : List Node) → Taken d xs (remove_first d xs)
unfolding remove_first
remove_first-Taken d [] = absent refl tt
remove_first-Taken d (x ∷ xs) = elim (Bool-cases (eq d x.id)) [
  | inl e ↦ rw e (taken x xs refl (sym ((eq_iff d x.id).0 e)) (Perm.refl (x ∷ xs)))
  | inr e ↦
      rw e (Taken-put_back d x xs (λ same. ground (arith, eq_iff d x.id)) (remove_first-Taken d xs))
]

abbrev Holds : (List Node → Type 0) → Option (List Node) → Type 0
Holds Q none = Unit {0}
Holds Q (some ys) = Q ys

remove_first-All :
    (P : Node → Type 0) (d : NodeData) (xs : List Node)
    → All P xs
    → Holds (All P) (remove_first d xs)
unfolding remove_first
remove_first-All P d [] h = tt
remove_first-All P d (x ∷ xs) h = elim (Bool-cases (eq d x.id)) [
  | inl e ↦ rw e h.1
  | inr e ↦ rw e (cons (remove_first d xs) (remove_first-All P d xs h.1))
]
  where
    cons : (r : Option (List Node)) → Holds (All P) r → Holds (All P) (put_back x r)
    cons none k = tt
    cons (some ys) k = (h.0, k)

remove_first-IsSorted :
    (d : NodeData) (xs : List Node) → IsSorted xs → Holds IsSorted (remove_first d xs)
unfolding remove_first
remove_first-IsSorted d [] h = tt
remove_first-IsSorted d (x ∷ xs) h = elim (Bool-cases (eq d x.id)) [
  | inl e ↦ rw e h.1
  | inr e ↦ rw e (
      cons (remove_first d xs) (remove_first-All (λ y. value x.id ≤ value y.id) d xs h.0)
        (remove_first-IsSorted d xs h.1))
]
  where
    cons :
        (r : Option (List Node))
        → Holds (All (λ y. value x.id ≤ value y.id)) r
        → Holds IsSorted r
        → Holds IsSorted (put_back x r)
    cons none k l = tt
    cons (some ys) k l = (k, l)

remove_first-length :
    (d : NodeData) (xs : List Node) → Holds (λ ys. suc (length ys) ≡ length xs) (remove_first d xs)
unfolding remove_first
remove_first-length d [] = tt
remove_first-length d (x ∷ xs) = elim (Bool-cases (eq d x.id)) [
  | inl e ↦ rw e refl
  | inr e ↦ rw e (cons (remove_first d xs) (remove_first-length d xs))
]
  where
    cons :
        (r : Option (List Node))
        → Holds (λ ys. suc (length ys) ≡ length xs) r
        → Holds (λ ys. suc (length ys) ≡ suc (length xs)) (put_back x r)
    cons none k = tt
    cons (some ys) k = ap suc k

-- What `remove` does: one node with the identifier is gone, or there was none and nothing changes.
pub data Removed (d : NodeData) (b : NodeBucket) : Bool × NodeBucket → Type 0 where
  gone :
      {r : Bool × NodeBucket} (n : Node)
      → r.0 ≡ true
      → n.id ≡ d
      → Perm b.elements (n ∷ r.1.elements)
      → r.1.low ≡ b.low
      → r.1.high ≡ b.high
      → Removed d b r
  not_there :
      {r : Bool × NodeBucket} → r ≡ (false, b) → All (λ n. n.id ≢ d) b.elements → Removed d b r

pub remove-Removed : (d : NodeData) (b : NodeBucket) → Removed d b (remove d b)
remove-Removed d b = go (remove_first-Taken d b.elements)
  where
    go : Taken d b.elements (remove_first d b.elements) → Removed d b (remove d b)
    go (taken n ys e same p) = unfold remove in rw (e, remove) (gone n refl same p refl refl)
    go (absent e all) = unfold remove in rw (e, remove) (not_there refl all)

pub remove-IsBucket :
    (max_size : ℕ) (d : NodeData) (b : NodeBucket)
    → IsBucket max_size b
    → IsBucket max_size (remove d b).1
remove-IsBucket max_size d b v =
    go (remove_first d b.elements) refl
      (remove_first-All (IsWithin b.low b.high) d b.elements v.within)
      (remove_first-IsSorted d b.elements v.sorted) (remove_first-length d b.elements)
  where
    go :
        (r : Option (List Node))
        → remove_first d b.elements ≡ r
        → Holds (All (IsWithin b.low b.high)) r
        → Holds IsSorted r
        → Holds (λ ys. suc (length ys) ≡ length b.elements) r
        → IsBucket max_size (remove d b).1
    go none e w s l = unfold remove in rw (e, remove) v
    go (some ys) e w s l =
        unfold remove in
        rw (e, remove)
          (record {
            bounds = v.bounds;
            within = w;
            sorted = s;
            capacity = omega (arith, l, v.capacity);
          })
