-- ===== src/Yield.antt =====
-- torrentsync/utils/Yield.h: the elements between two iterators, one at a call.
use torrent_sync.Common.{ℕ, zero, suc, ◌≡◌, refl, ap, Option, none, some, List, [], ◌∷◌, length}

-- What is left between `_begin` and `_end`.
pub record Yield (A : Type 0) : Type 0 where
  pub left : List A

-- `makeYield`.
unfoldable pub make_yield : {A : Type 0} → List A → Yield A
make_yield xs = record { left = xs }

unfoldable pub front_of : {A : Type 0} → List A → Option A × Yield A
unfolding make_yield
front_of [] = (none, make_yield [])
front_of (x ∷ xs) = (some x, make_yield xs)

-- `operator()`.
unfoldable pub next : {A : Type 0} → Yield A → Option A × Yield A
unfolding front_of
next y = front_of y.left

-- What a loop collects that calls the function until it yields nothing.
unfoldable pub collected : {A : Type 0} → ℕ → Option A × Yield A → List A
unfolding next
collected n (none, y) = []
collected zero (some x, y) = x ∷ []
collected (suc n) (some x, y) = x ∷ collected n (next y)

unfoldable pub drain : {A : Type 0} → Yield A → List A
unfolding next collected
drain y = collected (length y.left) (next y)

-- The function yields every element, in order, and then nothing.
pub drain-make_yield : {A : Type 0} (xs : List A) → drain (make_yield xs) ≡ xs
unfolding drain make_yield next front_of collected
drain-make_yield [] = refl
drain-make_yield (x ∷ xs) = ap (λ ys. x ∷ ys) (drain-make_yield xs)
