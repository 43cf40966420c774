-- ===== src/NodeData/Split/Masks.antt =====
-- The masks of `splitInHalf` at the bounds of a bucket: each number of free bits, by evaluation.
use torrent_sync.Common.{
  ℕ, zero, suc, ◌-◌, ◌*◌, ◌^◌, ◌<◌, ◌≡◌, refl, true, false, Bool, ◌&&◌, ◌==◌, bit_and, bit_or, some,
  arith, not,
}
use torrent_sync.NodeData.{NodeData}
use torrent_sync.NodeData.Split.{complement, common_mask, new_bit, is_full, split_in_half}

below : ℕ → (ℕ → Bool) → Bool
below zero p = true
below (suc n) p = p n && below n p

below_sound : (n : ℕ) (p : ℕ → Bool) (x : ℕ) → below n p ≡ true → x < n → p x ≡ true
unfolding below
below_sound zero p x h lt = absurd (omega arith)
below_sound (suc n) p x h lt = ground (arith, below_sound n p x)

-- The masks that occur: `j + 1` free bits, all in one word or with full words below it.
abbrev pub mask_p3 : ℕ → NodeData
mask_p3 j = record { p1 = 2 ^ 64 - 1; p2 = 2 ^ 64 - 1; p3 = complement 32 (2 ^ suc j - 1) }

abbrev pub mask_p2 : ℕ → NodeData
mask_p2 j = record { p1 = 2 ^ 64 - 1; p2 = complement 64 (2 ^ suc j - 1); p3 = 0 }

abbrev pub mask_p1 : ℕ → NodeData
mask_p1 j = record { p1 = complement 64 (2 ^ suc j - 1); p2 = 0; p3 = 0 }

-- The words that clear the new free bits, and those that set them.
pub record Keeps (m b : NodeData) (k1 k2 k3 f1 f2 f3 : ℕ) : Type 0 where
  pub not_full : is_full m ≡ false
  pub keep1 : bit_or m.p1 b.p1 ≡ k1
  pub keep2 : bit_or m.p2 b.p2 ≡ k2
  pub keep3 : bit_or m.p3 b.p3 ≡ k3
  pub free1 : complement 64 k1 ≡ f1
  pub free2 : complement 64 k2 ≡ f2
  pub free3 : complement 32 k3 ≡ f3

keeps : (m b : NodeData) (k1 k2 k3 f1 f2 f3 : ℕ) → Bool
keeps m b k1 k2 k3 f1 f2 f3 =
    not (is_full m)
    && ((bit_or m.p1 b.p1 == k1)
        && ((bit_or m.p2 b.p2 == k2)
            && ((bit_or m.p3 b.p3 == k3)
                && ((complement 64 k1 == f1)
                    && ((complement 64 k2 == f2) && (complement 32 k3 == f3))))))

keeps-Keeps :
    (m b : NodeData) (k1 k2 k3 f1 f2 f3 : ℕ)
    → keeps m b k1 k2 k3 f1 f2 f3 ≡ true
    → Keeps m b k1 k2 k3 f1 f2 f3
unfolding keeps
keeps-Keeps m b k1 k2 k3 f1 f2 f3 h = ground arith

abbrev pub kept : ℕ → ℕ → ℕ
kept w j = (2 ^ (w - j) - 1) * 2 ^ j

table_p3 :
    below 32 (λ j.
      keeps (mask_p3 j) (new_bit (mask_p3 j)) (2 ^ 64 - 1) (2 ^ 64 - 1) (kept 32 j) 0 0 (2 ^ j - 1))
    ≡ true
unfolding below keeps new_bit is_full
table_p3 = refl

table_p2 :
    below 64 (λ j.
      keeps (mask_p2 j) (new_bit (mask_p2 j)) (2 ^ 64 - 1) (kept 64 j) 0 0 (2 ^ j - 1) (2 ^ 32 - 1))
    ≡ true
unfolding below keeps new_bit is_full
table_p2 = refl

table_p1 :
    below 64 (λ j.
      keeps (mask_p1 j) (new_bit (mask_p1 j)) (kept 64 j) 0 0 (2 ^ j - 1) (2 ^ 64 - 1) (2 ^ 32 - 1))
    ≡ true
unfolding below keeps new_bit is_full
table_p1 = refl

pub split_by_mask :
    (low high : NodeData) {m : NodeData} {k1 k2 k3 f1 f2 f3 : ℕ}
    → common_mask low high ≡ m
    → Keeps m (new_bit m) k1 k2 k3 f1 f2 f3
    → split_in_half low high
      ≡ some (
        record { p1 = bit_or low.p1 f1; p2 = bit_or low.p2 f2; p3 = bit_or low.p3 f3 },
        record { p1 = bit_and high.p1 k1; p2 = bit_and high.p2 k2; p3 = bit_and high.p3 k3 },
      )
unfolding split_in_half
split_by_mask low high e k =
    rw (e, k.not_full, k.keep1, k.keep2, k.keep3, k.free1, k.free2, k.free3) refl

pub masked_p3 :
    (j : ℕ)
    → j < 32
    → Keeps (mask_p3 j) (new_bit (mask_p3 j)) (2 ^ 64 - 1) (2 ^ 64 - 1) (kept 32 j) 0 0 (2 ^ j - 1)
masked_p3 j h = keeps-Keeps _ _ _ _ _ _ _ _ (below_sound 32 _ j table_p3 h)

pub masked_p2 :
    (j : ℕ)
    → j < 64
    → Keeps (mask_p2 j) (new_bit (mask_p2 j)) (2 ^ 64 - 1) (kept 64 j) 0 0 (2 ^ j - 1) (2 ^ 32 - 1)
masked_p2 j h = keeps-Keeps _ _ _ _ _ _ _ _ (below_sound 64 _ j table_p2 h)

pub masked_p1 :
    (j : ℕ)
    → j < 64
    → Keeps (mask_p1 j) (new_bit (mask_p1 j)) (kept 64 j) 0 0 (2 ^ j - 1) (2 ^ 64 - 1) (2 ^ 32 - 1)
masked_p1 j h = keeps-Keeps _ _ _ _ _ _ _ _ (below_sound 64 _ j table_p1 h)
