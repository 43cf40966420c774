-- ===== src/NodeData/Split/Range.antt =====
-- The bounds of a bucket: all identifiers that share their leading bits.
use torrent_sync.Common.{subst, ℕ, zero, suc, ◌+◌, ◌-◌, ◌*◌, ◌^◌, ◌≤◌, ◌<◌, ◌≡◌, refl, arith}
use native.Mathlib.Nat.{add-zero, pow-suc, one-le-pow}
use torrent_sync.NodeData.{NodeData, IsNodeData, value}

-- Two words of `v + k` bits with the same `v` leading bits, and zeros and ones below.
pub record IsWordRange (v k low high : ℕ) : Type 0 where
  pub leading : ℕ
  pub fits : leading < 2 ^ v
  pub low_word : low ≡ leading * 2 ^ k
  pub high_word : high ≡ leading * 2 ^ k + (2 ^ k - 1)

-- The identifiers with the same leading bits: `free` low bits take every value.
pub data IsRange : ℕ → NodeData → NodeData → Type 0 where
  in_p3 :
      {low high : NodeData} (v k : ℕ)
      → v + k ≡ 32
      → low.p1 < 2 ^ 64
      → high.p1 ≡ low.p1
      → low.p2 < 2 ^ 64
      → high.p2 ≡ low.p2
      → IsWordRange v k low.p3 high.p3
      → IsRange k low high
  in_p2 :
      {low high : NodeData} (v k : ℕ)
      → v + suc k ≡ 64
      → low.p1 < 2 ^ 64
      → high.p1 ≡ low.p1
      → IsWordRange v (suc k) low.p2 high.p2
      → low.p3 ≡ 0
      → high.p3 ≡ 2 ^ 32 - 1
      → IsRange (33 + k) low high
  in_p1 :
      {low high : NodeData} (v k : ℕ)
      → v + suc k ≡ 64
      → IsWordRange v (suc k) low.p1 high.p1
      → low.p2 ≡ 0
      → high.p2 ≡ 2 ^ 64 - 1
      → low.p3 ≡ 0
      → high.p3 ≡ 2 ^ 32 - 1
      → IsRange (97 + k) low high

-- With no free bit left in `p2` or `p1`, the free bits are those of the words below.
pub range_p2 :
    {low high : NodeData} (v k : ℕ)
    → v + k ≡ 64
    → low.p1 < 2 ^ 64
    → high.p1 ≡ low.p1
    → IsWordRange v k low.p2 high.p2
    → low.p3 ≡ 0
    → high.p3 ≡ 2 ^ 32 - 1
    → IsRange (32 + k) low high
range_p2 {low} {high} v zero e b1 e1 r l3 h3 =
    let full : v ≡ 64 = omega arith in
    let fits : r.leading < 2 ^ 64 = rw full at r.fits in
    in_p3 0 32 refl b1 e1 (omega (arith, fits)) (omega arith)
      (record { leading = 0; fits = omega arith; low_word = l3; high_word = h3 })
range_p2 {low} {high} v (suc k) e b1 e1 r l3 h3 =
    subst (λ n. IsRange n low high) (omega arith) (in_p2 v k e b1 e1 r l3 h3)

pub range_p1 :
    {low high : NodeData} (v k : ℕ)
    → v + k ≡ 64
    → IsWordRange v k low.p1 high.p1
    → low.p2 ≡ 0
    → high.p2 ≡ 2 ^ 64 - 1
    → low.p3 ≡ 0
    → high.p3 ≡ 2 ^ 32 - 1
    → IsRange (96 + k) low high
range_p1 {low} {high} v zero e r l2 h2 l3 h3 =
    let full : v ≡ 64 = omega arith in
    let fits : r.leading < 2 ^ 64 = rw full at r.fits in
    in_p2 0 63 refl (omega (arith, fits)) (omega arith)
      (record { leading = 0; fits = omega arith; low_word = l2; high_word = h2 }) l3 h3
range_p1 {low} {high} v (suc k) e r l2 h2 l3 h3 =
    subst (λ n. IsRange n low high) (omega arith) (in_p1 v k e r l2 h2 l3 h3)

pow-add : (v k : ℕ) → 2 ^ (v + k) ≡ 2 ^ v * 2 ^ k
pow-add v zero = rw (add-zero v) (omega arith)
pow-add v (suc k) =
    let e : v + suc k ≡ suc (v + k) = omega arith in
    rw (e, pow-suc 2 (v + k), pow-suc 2 k, pow-add v k) (omega arith)

word_bounds :
    (w v k low high : ℕ) → v + k ≡ w → IsWordRange v k low high → (low ≤ high) × (high < 2 ^ w)
word_bounds w v k low high e r =
    let total : 2 ^ w ≡ 2 ^ v * 2 ^ k = rw (← e) (pow-add v k) in
    let one : 1 ≤ 2 ^ k = one-le-pow k 2 (omega arith) in
    let room : suc r.leading * 2 ^ k ≤ 2 ^ v * 2 ^ k = grind (arith, r.fits) in
    (omega (arith, one), omega (arith, one, total, room))

pub record IsOrdered (low high : NodeData) : Type 0 where
  pub low_words : IsNodeData low
  pub high_words : IsNodeData high
  pub ordered : value low ≤ value high

-- The bounds of a range are identifiers, the lower one first.
pub IsRange-IsOrdered : {n : ℕ} {low high : NodeData} → IsRange n low high → IsOrdered low high
IsRange-IsOrdered {low = low} {high = high} (in_p3 v k e b1 e1 b2 e2 r) =
    let b = word_bounds 32 v k low.p3 high.p3 e r in omega (arith, b)
IsRange-IsOrdered {low = low} {high = high} (in_p2 v k e b1 e1 r l3 h3) =
    let b = word_bounds 64 v (suc k) low.p2 high.p2 e r in omega (arith, b)
IsRange-IsOrdered {low = low} {high = high} (in_p1 v k e r l2 h2 l3 h3) =
    let b = word_bounds 64 v (suc k) low.p1 high.p1 e r in omega (arith, b)
