-- ===== src/NodeBucket/Content.antt =====
-- Which nodes a bucket holds after each operation.
use mathlib.Core.List
use mathlib.Core.List.{Perm, perm_middle, perm_append_comm, append_assoc}
use native.Mathlib.Bridge.{from_ℕ}
use mathlib.Core.List.Perm
use torrent_sync.Common.{
  ◌∙◌, sym, ap, subst, ℕ, zero, suc, ◌≤◌, ◌≡◌, inl, inr, refl, true, List, [], ◌∷◌, ◌++◌, length,
  take, drop, All, arith, Bool-cases, if◌then◌else◌,
}
use torrent_sync.NodeData.{lt}
use torrent_sync.Node.{Node, is_bad}
use torrent_sync.NodeBucket.{find_greater, insert, good_ones}

take-append-drop : (n : ℕ) (xs : List Node) → take n xs ++ drop n xs ≡ xs
take-append-drop zero xs = refl
take-append-drop (suc n) [] = refl
take-append-drop (suc n) (x ∷ xs) = ap (λ r. x ∷ r) (take-append-drop n xs)

pub insert-perm : (n : Node) (xs : List Node) → Perm (insert n xs) (n ∷ xs)
unfolding insert
insert-perm n xs =
    let i = find_greater n.id xs in
    subst (λ r. Perm (take i xs ++ n ∷ drop i xs) (n ∷ r)) (take-append-drop i xs)
      (perm_middle (take i xs) (drop i xs))

pub insert_cons :
    (n x : Node) (xs : List Node)
    → insert n (x ∷ xs) ≡ (if lt n.id x.id then n ∷ x ∷ xs else x ∷ insert n xs)
unfolding insert
insert_cons n x xs = elim (Bool-cases (lt n.id x.id)) [ inl e ↦ rw e refl | inr e ↦ rw e refl ]

pub insert_nil : (n : Node) → insert n [] ≡ n ∷ []
unfolding insert
insert_nil n = refl

pub length-insert : (n : Node) (xs : List Node) → length (insert n xs) ≡ suc (length xs)
length-insert n [] = rw insert_nil refl
length-insert n (x ∷ xs) = rw insert_cons (ground (arith, length-insert n xs))

pub insert-All :
    (P : Node → Type 0) (n : Node) (xs : List Node) → P n → All P xs → All P (insert n xs)
insert-All P n [] h hs = rw insert_nil (h, tt)
insert-All P n (x ∷ xs) h hs = rw insert_cons (elim (Bool-cases (lt n.id x.id)) [
  | inl e ↦ rw e (h, hs)
  | inr e ↦ rw e (hs.0, insert-All P n xs h hs.1)
])

pub good_ones-All :
    (P : Node → Type 0) (now : ℕ) (xs : List Node) → All P xs → All P (good_ones now xs)
unfolding good_ones
good_ones-All P now [] h = tt
good_ones-All P now (x ∷ xs) h = elim (Bool-cases (is_bad now x)) [
  | inl e ↦ rw e (good_ones-All P now xs h.1)
  | inr e ↦ rw e (h.0, good_ones-All P now xs h.1)
]

pub length-good_ones-le : (now : ℕ) (xs : List Node) → length (good_ones now xs) ≤ length xs
unfolding good_ones
length-good_ones-le now [] = omega arith
length-good_ones-le now (x ∷ xs) = ground (arith, length-good_ones-le now xs)

-- If none was dropped, the list is as it was.
pub good_ones_full :
    (now : ℕ) (xs : List Node) → length xs ≤ length (good_ones now xs) → good_ones now xs ≡ xs
unfolding good_ones
good_ones_full now [] h = refl
good_ones_full now (x ∷ xs) h = ground (arith, length-good_ones-le now xs, good_ones_full now xs)

length-library : (xs : List Node) → length xs ≡ from_ℕ (List.length xs)
length-library [] = refl
length-library (x ∷ xs) = ap suc (length-library xs)

pub length-perm : (xs ys : List Node) → Perm xs ys → length xs ≡ length ys
length-perm xs ys p = length-library xs ∙ ap from_ℕ (Perm.length-eq p) ∙ sym (length-library ys)

pub append_left_comm : (xs ys zs : List Node) → Perm (xs ++ (ys ++ zs)) (ys ++ (xs ++ zs))
append_left_comm xs ys zs =
    subst (λ r. Perm (xs ++ (ys ++ zs)) r) (append_assoc ys xs zs)
      (subst (λ l. Perm l ((ys ++ xs) ++ zs)) (append_assoc xs ys zs)
        (Perm.append_right zs (perm_append_comm xs ys)))

-- The nodes that `removeBad` drops.
pub bad_ones : ℕ → List Node → List Node
bad_ones now [] = []
bad_ones now (x ∷ xs) = if is_bad now x then x ∷ bad_ones now xs else bad_ones now xs

pub bad_ones-All : (now : ℕ) (xs : List Node) → All (λ n. is_bad now n ≡ true) (bad_ones now xs)
unfolding bad_ones
bad_ones-All now [] = tt
bad_ones-All now (x ∷ xs) = elim (Bool-cases (is_bad now x)) [
  | inl e ↦ rw e (e, bad_ones-All now xs)
  | inr e ↦ rw e (bad_ones-All now xs)
]

pub bad-good-perm : (now : ℕ) (xs : List Node) → Perm xs (bad_ones now xs ++ good_ones now xs)
unfolding bad_ones good_ones
bad-good-perm now [] = Perm.nil
bad-good-perm now (x ∷ xs) = elim (Bool-cases (is_bad now x)) [
  | inl e ↦ rw e (Perm.cons x (bad-good-perm now xs))
  | inr e ↦ rw e (
      Perm.trans (Perm.cons x (bad-good-perm now xs))
        (Perm.symm (perm_middle (bad_ones now xs) (good_ones now xs))))
]
