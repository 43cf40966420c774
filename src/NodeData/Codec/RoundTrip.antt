-- ===== src/NodeData/Codec/RoundTrip.antt =====
-- `read` undoes `write` and `write` undoes `read`; the constructor reads what `read` reads.
use torrent_sync.Common.{
  All-append, returns_injective, ◌∙◌, ap, ap₂, sym, ℕ, zero, suc, ◌+◌, ◌-◌, ◌≤◌, ◌<◌, ◌≡◌, refl, [],
  ◌∷◌, ◌++◌, length, take, drop, arith, returns, throws, invalid_argument, ltb, false,
}
use torrent_sync.NodeData.{NodeData, IsNodeData}
use torrent_sync.NodeData.Codec.{Buffer, read, write}
use torrent_sync.NodeData.Codec.BigEndian.{
  IsBytes, be_value, be_bytes, low_byte, shift_in-be_value, be_bytes-be_value,
}

pub IsBytes-drop : (n : ℕ) (bs : Buffer) → IsBytes bs → IsBytes (drop n bs)
IsBytes-drop zero bs h = h
IsBytes-drop (suc n) [] h = tt
IsBytes-drop (suc n) (b ∷ bs) h = IsBytes-drop n bs h.1

pub IsBytes-take : (n : ℕ) (bs : Buffer) → IsBytes bs → IsBytes (take n bs)
IsBytes-take zero bs h = tt
IsBytes-take (suc n) [] h = tt
IsBytes-take (suc n) (b ∷ bs) h = (h.0, IsBytes-take n bs h.1)

pub length-drop : (n : ℕ) (bs : Buffer) → length (drop n bs) ≡ length bs - n
length-drop zero bs = omega arith
length-drop (suc n) [] = omega arith
length-drop (suc n) (b ∷ bs) = omega (arith, length-drop n bs)

length-take_of_le : (n : ℕ) (bs : Buffer) → n ≤ length bs → length (take n bs) ≡ n
length-take_of_le zero bs h = refl
length-take_of_le (suc n) [] h = absurd (omega arith)
length-take_of_le (suc n) (b ∷ bs) h = omega (arith, length-take_of_le n bs (omega arith))

pub take-append-take : (n m : ℕ) (bs : Buffer) → take n bs ++ take m (drop n bs) ≡ take (n + m) bs
take-append-take zero m bs = ap (λ k. take k bs) (omega arith)
take-append-take (suc n) m [] = let e : suc n + m ≡ suc (n + m) = omega arith in rw e (nothing m)
  where
    nothing : (m : ℕ) → [] ++ take m [] ≡ take {A = ℕ} (suc (n + m)) []
    nothing zero = refl
    nothing (suc m) = refl
take-append-take (suc n) m (b ∷ bs) =
    let e : suc n + m ≡ suc (n + m) = omega arith in
    rw e (ap (λ r. b ∷ r) (take-append-take n m bs))

-- The words that `read` assembles.
abbrev pub parsed : Buffer → NodeData
parsed bs = record {
  p1 = be_value 0 (take 8 bs);
  p2 = be_value 0 (take 8 (drop 8 bs));
  p3 = be_value 0 (take 4 (drop 8 (drop 8 bs)));
}

pub read_lem : (bs : Buffer) → 20 ≤ length bs → IsBytes bs → read bs ≡ returns (parsed bs)
unfolding read
read_lem bs h bytes =
    let h8 : 12 ≤ length (drop 8 bs) = omega (arith, length-drop 8 bs) in
    let h16 : 4 ≤ length (drop 8 (drop 8 bs)) = omega (arith, length-drop 8 (drop 8 bs)) in
    let long : ltb (length bs) 20 ≡ false = ground arith in
    let bytes8 = IsBytes-drop 8 bs bytes in
    rw
      (
        long,
        shift_in-be_value 64 8 0 bs (omega arith) bytes (omega arith),
        shift_in-be_value 64 8 0 (drop 8 bs) (omega arith) bytes8 (omega arith),
        shift_in-be_value 32 4 0 (drop 8 (drop 8 bs)) h16 (IsBytes-drop 8 (drop 8 bs) bytes8)
            (omega arith),
      )
      refl

pub write_lem : (d : NodeData) → write d ≡ be_bytes 8 d.p1 ++ (be_bytes 8 d.p2 ++ be_bytes 4 d.p3)
unfolding write
write_lem d = simp low_byte

pub write-IsBytes : (d : NodeData) → IsBytes (write d)
write-IsBytes d = rw write_lem (omega arith)

-- `read` undoes `write` on identifiers whose words are in range, whatever bytes follow.
pub read-write :
    (d : NodeData) (rest : Buffer)
    → IsNodeData d
    → IsBytes rest
    → read (write d ++ rest) ≡ returns d
read-write d rest h bytes =
    let all = All-append (λ b. b < 256) (write d) rest (write-IsBytes d) bytes in
    read_lem (write d ++ rest) (unfold write in omega arith) all ∙ ap returns same
  where
    same : parsed (write d ++ rest) ≡ d
    same =
        unfold write in
        simp low_byte λ i. record {
          p1 = (let e : be_value 0 (be_bytes 8 d.p1) ≡ d.p1 = omega arith in e) i;
          p2 = (let e : be_value 0 (be_bytes 8 d.p2) ≡ d.p2 = omega arith in e) i;
          p3 = (let e : be_value 0 (be_bytes 4 d.p3) ≡ d.p3 = omega arith in e) i;
        }

-- `write` undoes `read` on a buffer of at least twenty bytes: it gives the first twenty.
pub write-read :
    (bs : Buffer) {d : NodeData}
    → 20 ≤ length bs
    → IsBytes bs
    → read bs ≡ returns d
    → write d ≡ take 20 bs
write-read bs {d} h bytes e =
    let same : d ≡ parsed bs = returns_injective (sym e ∙ read_lem bs h bytes) in
    rw same (write_lem (parsed bs) ∙ ap₂ ◌++◌ part1 (ap₂ ◌++◌ part2 part3) ∙ joined)
  where
    word :
        (n : ℕ) (b : Buffer)
        → n ≤ length b
        → IsBytes b
        → be_bytes n (be_value 0 (take n b)) ≡ take n b
    word n b le hb =
        rw (length-take_of_le n b le) at (be_bytes-be_value 0 (take n b) (IsBytes-take n b hb))

    part1 : be_bytes 8 (parsed bs).p1 ≡ take 8 bs
    part1 = word 8 bs (omega arith) bytes

    part2 : be_bytes 8 (parsed bs).p2 ≡ take 8 (drop 8 bs)
    part2 = word 8 (drop 8 bs) (omega (arith, length-drop 8 bs)) (IsBytes-drop 8 bs bytes)

    part3 : be_bytes 4 (parsed bs).p3 ≡ take 4 (drop 8 (drop 8 bs))
    part3 =
        word 4 (drop 8 (drop 8 bs)) (omega (arith, length-drop 8 (drop 8 bs), length-drop 8 bs))
          (IsBytes-drop 8 (drop 8 bs) (IsBytes-drop 8 bs bytes))

    joined : take 8 bs ++ (take 8 (drop 8 bs) ++ take 4 (drop 8 (drop 8 bs))) ≡ take 20 bs
    joined = rw (take-append-take 8 4 (drop 8 bs)) (take-append-take 8 12 bs)

pub read_short : (bs : Buffer) → length bs < 20 → read bs ≡ throws invalid_argument
unfolding read
read_short bs h = ground arith
