-- ===== src/Bencode/Encoder/Content.antt =====
-- The encoder against what it stands for: the bytes written so far.
use torrent_sync.Common.{
  ◌∙◌, ap, ℕ, zero, suc, ◌+◌, ◌-◌, ◌*◌, ◌/◌, ◌≤◌, ◌≡◌, refl, inl, inr, Bool-cases, ltb, [], ◌∷◌,
  ◌++◌, length, length-append, take, take_all, replicate, Outcome, returns, arith,
}
use torrent_sync.NodeData.Codec.{Buffer}
use torrent_sync.Bencode.Encoder.{Encoder, resize, check_and_expand, copy_to, store}

-- The bytes written so far.
abbrev pub content : Encoder → Buffer
content s = take s.used_bytes s.result

-- The used bytes lie in the buffer, whose size is a number of blocks of 1024 bytes.
pub record IsEncoder (s : Encoder) : Type 0 where
  pub within : s.used_bytes ≤ length s.result
  pub blocks : ℕ
  pub sized : length s.result ≡ blocks * 1024

-- What an operation does that appends bytes.
pub record Wrote (s : Encoder) (xs : Buffer) (r : Outcome Encoder) : Type 0 where
  pub after : Encoder
  pub wrote : r ≡ returns after
  pub appended : content after ≡ content s ++ xs
  pub valid : IsEncoder after
  pub same_key : after.last_key ≡ s.last_key

pub record Copied (i : ℕ) (xs rs : Buffer) : Type 0 where
  pub copied : Buffer
  pub copies : copy_to i xs rs ≡ returns copied
  pub prefix : take (i + length xs) copied ≡ take i rs ++ xs
  pub same_length : length copied ≡ length rs

pub copy_to-Copied : (i : ℕ) (xs rs : Buffer) → i + length xs ≤ length rs → Copied i xs rs
unfolding copy_to
copy_to-Copied zero [] rs h = record {
  copied = rs;
  copies = refl;
  prefix = refl;
  same_length = refl;
}
copy_to-Copied zero (x ∷ xs) [] h = absurd (omega arith)
copy_to-Copied zero (x ∷ xs) (r ∷ rs) h =
    let c = copy_to-Copied zero xs rs (omega (arith, h)) in
    let e : 0 + suc (length xs) ≡ suc (0 + length xs) = omega arith in
    record {
      copied = x ∷ c.copied;
      copies = rw c.copies refl;
      prefix = rw e (ap (λ l. x ∷ l) c.prefix);
      same_length = ap suc c.same_length;
    }
copy_to-Copied (suc i) xs [] h = absurd (omega arith)
copy_to-Copied (suc i) xs (r ∷ rs) h =
    let c = copy_to-Copied i xs rs (omega (arith, h)) in
    let e : suc i + length xs ≡ suc (i + length xs) = omega arith in
    record {
      copied = r ∷ c.copied;
      copies = rw c.copies refl;
      prefix = rw e (ap (λ l. r ∷ l) c.prefix);
      same_length = ap suc c.same_length;
    }

-- A copy that fits also keeps the size of the buffer.
pub record Stored (xs : Buffer) (s : Encoder) : Type 0 where
  pub written : Wrote s xs (store xs s)
  pub moved : written.after.used_bytes ≡ s.used_bytes + length xs
  pub same_size : length written.after.result ≡ length s.result

pub store-Stored :
    (xs : Buffer) (s : Encoder)
    → IsEncoder s
    → s.used_bytes + length xs ≤ length s.result
    → Stored xs s
unfolding store
store-Stored xs s v h =
    let c = copy_to-Copied s.used_bytes xs s.result h in
    record {
      written = record {
        after = record s { used_bytes = s.used_bytes + length xs; result = c.copied };
        wrote = rw c.copies refl;
        appended = c.prefix;
        valid = record {
          within = omega (arith, h, c.same_length);
          blocks = v.blocks;
          sized = c.same_length ∙ v.sized;
        };
        same_key = refl;
      };
      moved = refl;
      same_size = c.same_length;
    }

pub take_front : (n : ℕ) (xs ys : Buffer) → n ≤ length xs → take n (xs ++ ys) ≡ take n xs
take_front zero xs ys h = refl
take_front (suc n) [] ys h = absurd (omega arith)
take_front (suc n) (x ∷ xs) ys h = ap (λ l. x ∷ l) (take_front n xs ys (omega (arith, h)))

pub length-replicate : (n x : ℕ) → length (replicate n x) ≡ n
length-replicate zero x = refl
length-replicate (suc n) x = ap suc (length-replicate n x)

-- What `checkAndExpand` gives: room for the bytes, and nothing else changes.
pub record Expanded (add : ℕ) (s : Encoder) (s' : Encoder) : Type 0 where
  pub same_used : s'.used_bytes ≡ s.used_bytes
  pub same_content : content s' ≡ content s
  pub room : s'.used_bytes + add ≤ length s'.result
  pub valid : IsEncoder s'
  pub same_key : s'.last_key ≡ s.last_key

pub length-resize : (size : ℕ) (xs : Buffer) → length xs ≤ size → length (resize size xs) ≡ size
unfolding resize
length-resize size xs h = omega (
  arith,
  h,
  length-append (take size xs) (replicate (size - length xs) 0),
  ap length (take_all size xs h),
  length-replicate (size - length xs) 0,
)

pub check_and_expand-Expanded :
    (add : ℕ) (s : Encoder) → IsEncoder s → add ≤ 1024 → Expanded add s (check_and_expand add s)
unfolding check_and_expand
check_and_expand-Expanded add s v h =
    elim (Bool-cases (ltb (length s.result) (s.used_bytes + add))) [
      | inr e ↦ rw e (record {
        same_used = refl;
        same_content = refl;
        room = ground arith;
        valid = v;
        same_key = refl;
      })
      | inl e ↦ rw e (record {
        same_used = refl;
        same_content =
            ap (take s.used_bytes) grown ∙ take_front s.used_bytes s.result zeros v.within;
        room = omega (arith, new_length, h, v.within, v.sized);
        valid = record {
          within = omega (arith, new_length, v.within, v.sized);
          blocks = length s.result / 1024 + 1;
          sized = new_length;
        };
        same_key = refl;
      })
    ]
  where
    size : ℕ
    size = (length s.result / 1024 + 1) * 1024

    zeros : Buffer
    zeros = replicate (size - length s.result) 0

    grown : resize size s.result ≡ s.result ++ zeros
    grown = unfold resize in ap (λ l. l ++ zeros) (take_all size s.result (omega arith))

    new_length : length (resize size s.result) ≡ size
    new_length = length-resize size s.result (omega arith)
