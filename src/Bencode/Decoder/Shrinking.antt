-- ===== src/Bencode/Decoder/Shrinking.antt =====
-- What the decoder reads is taken from the stream: elements and values take at least a byte.
use torrent_sync.Common.{
  ◌||◌, ap, ℕ, zero, suc, ◌+◌, ◌-◌, ◌*◌, ◌%◌, ◌^◌, ◌≤◌, ◌<◌, ◌≡◌, refl, inl, inr, Bool, true, false,
  Bool-cases, ltb, ◌==◌, ◌&&◌, if◌then◌else◌, Option, none, some, [], ◌∷◌, length, drop, Outcome,
  returns, throws, aborts, undefined, ◌>>=◌, arith,
}
use torrent_sync.NodeData.Codec.{Buffer}
use torrent_sync.Bencode.{is_digit}
use torrent_sync.Bencode.Stream.{
  Stream, make_stream, good, fail, peek, peek_at, get, get_at, ignore, ignore_at, extract,
  extract_at, skip_spaces, scan_sign, scan_digits, starts_with_digit, is_empty, is_space,
}
use torrent_sync.Bencode.Stream
use torrent_sync.Bencode.Decoder.{
  is_separator, ranged, fits_int, fits_size, check_length, read_length, has_zero, read_string,
  read_element, get_bytes, read_value,
}
use torrent_sync.Bencode.Decoder.Parse.{Reserve}

-- A predicate on what is returned.
abbrev pub Returns : {A : Type 0} → (A → Type 0) → Outcome A → Type 0
Returns P (returns a) = P a
Returns P (throws e) = Unit {0}
Returns P aborts = Unit {0}
Returns P undefined = Unit {0}

pub Returns-bind :
    {A B : Type 0} (P : A → Type 0) (Q : B → Type 0) (m : Outcome A) (f : A → Outcome B)
    → Returns P m
    → ((a : A) → P a → Returns Q (f a))
    → Returns Q (m >>= f)
Returns-bind P Q (returns a) f h k = k a h
Returns-bind P Q (throws e) f h k = tt
Returns-bind P Q aborts f h k = tt
Returns-bind P Q undefined f h k = tt

abbrev pub left : Stream → ℕ
left s = length s.rest

pub peek-left : (s : Stream) → left (peek s).1 ≡ left s
unfolding peek
peek-left s = elim (Bool-cases (good s)) [ inl e ↦ rw e (at s.rest refl) | inr e ↦ rw e refl ]
  where
    at : (bytes : Buffer) → s.rest ≡ bytes → left (peek_at bytes s).1 ≡ left s
    at [] e = unfold peek_at in refl
    at (c ∷ cs) e = unfold peek_at in refl

-- Whether a character was there.
abbrev Took : Option ℕ → ℕ → ℕ → Type 0
Took none before after = after ≤ before
Took (some c) before after = after < before

get-Took : (s : Stream) → Took (get s).0 (left s) (left (get s).1)
unfolding get
get-Took s = elim (Bool-cases (good s)) [
  | inl e ↦ rw e (at s.rest refl)
  | inr e ↦ rw e (omega arith)
]
  where
    at :
        (bytes : Buffer)
        → s.rest ≡ bytes
        → Took (get_at bytes s).0 (left s) (left (get_at bytes s).1)
    at [] e = unfold get_at in omega arith
    at (c ∷ cs) e = unfold get_at in omega (arith, ap length e)

Took-le : (o : Option ℕ) (before after : ℕ) → Took o before after → after ≤ before
Took-le none before after h = h
Took-le (some c) before after h = omega (arith, h)

skip_spaces-le : (bytes : Buffer) → length (skip_spaces bytes) ≤ length bytes
unfolding skip_spaces
skip_spaces-le [] = omega arith
skip_spaces-le (c ∷ cs) = elim (Bool-cases (is_space c)) [
  | inl e ↦ rw e (omega (arith, skip_spaces-le cs))
  | inr e ↦ rw e (omega arith)
]

scan_sign-le : (bytes : Buffer) → length (scan_sign bytes).1 ≤ length bytes
unfolding scan_sign
scan_sign-le [] = omega arith
scan_sign-le (c ∷ cs) = elim (Bool-cases (c == 45)) [
  | inl e ↦ rw e (omega arith)
  | inr e ↦ elim (Bool-cases (c == 43)) [
    | inl p ↦ rw (e, p) (omega arith)
    | inr p ↦ rw (e, p) (omega arith)
  ]
]

scan_digits-le : (n : ℕ) (bytes : Buffer) → length (scan_digits n bytes).1 ≤ length bytes
unfolding scan_digits
scan_digits-le n [] = omega arith
scan_digits-le n (c ∷ cs) = elim (Bool-cases (is_digit c)) [
  | inl e ↦ rw e (omega (arith, scan_digits-le (n * 10 + (c - 48)) cs))
  | inr e ↦ rw e (omega arith)
]

extract_at-le : (bytes : Buffer) (s : Stream) → left (extract_at bytes s).1 ≤ length bytes
unfolding extract_at
extract_at-le bytes s =
    let sign = scan_sign-le bytes in
    let digits = scan_digits-le 0 (scan_sign bytes).1 in
    elim (Bool-cases (starts_with_digit (scan_sign bytes).1)) [
      | inl e ↦ rw e (omega (arith, sign, digits))
      | inr e ↦ rw e (omega (arith, sign))
    ]

extract-le : (s : Stream) → left (extract s).1 ≤ left s
unfolding extract
extract-le s = elim (Bool-cases (good s)) [
  | inr e ↦ rw e (omega arith)
  | inl e ↦ elim (Bool-cases (is_empty (skip_spaces s.rest))) [
    | inl p ↦ rw (e, p) (omega arith)
    | inr p ↦ rw (e, p) (omega (arith, skip_spaces-le s.rest, extract_at-le (skip_spaces s.rest) s))
  ]
]

ranged-left :
    (fits : Bool → ℕ → Bool) (r : Option (Bool × ℕ) × Stream) → left (ranged fits r).1 ≡ left r.1
unfolding ranged
ranged-left fits (none, s) = refl
ranged-left fits (some (negative, n), s) = elim (Bool-cases (fits negative n)) [
  | inl e ↦ rw e refl
  | inr e ↦ rw e refl
]

check_length-Returns :
    (number : Option (Bool × ℕ)) (next : Option ℕ) (s' : Stream) (before : ℕ)
    → Took next before (left s')
    → Returns (λ r. left r.1 < before) (check_length number (next, s'))
unfolding check_length
check_length-Returns none next s' before h = tt
check_length-Returns (some n) none s' before h = elim (Bool-cases (good s')) [
  | inl e ↦ rw e tt
  | inr e ↦ rw e tt
]
check_length-Returns (some n) (some c) s' before h =
    elim (Bool-cases (good s' && is_separator (some c))) [ inl e ↦ rw e h | inr e ↦ rw e tt ]

read_length-Returns :
    (fits : Bool → ℕ → Bool) (s : Stream) → Returns (λ r. left r.1 < left s) (read_length fits s)
unfolding read_length
read_length-Returns fits s =
    let number = ranged fits (extract s) in
    let small : left number.1 ≤ left s =
      omega (arith, ranged-left fits (extract s), extract-le s) in
    check_length-Returns number.0 (get number.1).0 (get number.1).1 (left s) (
      weaken (get number.1).0 (left number.1) (left s) (left (get number.1).1) small
        (get-Took number.1))
  where
    weaken : (o : Option ℕ) (m n after : ℕ) → m ≤ n → Took o m after → Took o n after
    weaken none m n after h t = omega (arith, h, t)
    weaken (some c) m n after h t = omega (arith, h, t)

length-drop-le : (n : ℕ) (bytes : Buffer) → length (drop n bytes) ≤ length bytes
length-drop-le zero bytes = omega arith
length-drop-le (suc n) [] = omega arith
length-drop-le (suc n) (c ∷ cs) = omega (arith, length-drop-le n cs)

read-le : (n : ℕ) (s : Stream) → left (Stream.read n s).1 ≤ left s
unfolding Stream.read
read-le n s = elim (Bool-cases (good s)) [
  | inr e ↦ rw e (omega arith)
  | inl e ↦ elim (Bool-cases (ltb (length s.rest) n)) [
    | inl p ↦ rw (e, p) (omega arith)
    | inr p ↦ rw (e, p) (length-drop-le n s.rest)
  ]
]

read_string-Returns :
    (negative : Bool) (n : ℕ) (s : Stream)
    → Returns (λ r. left r.1 ≤ left s) (read_string negative n s)
unfolding read_string
read_string-Returns true n s = elim (Bool-cases (n == 0)) [
  | inl e ↦ rw e (omega arith)
  | inr e ↦ rw e tt
]
read_string-Returns false n s =
    let characters = (Stream.read n s).0 in
    elim (Bool-cases (characters.1 || has_zero characters.0)) [
      | inl e ↦ rw e (read-le n s)
      | inr e ↦ rw e tt
    ]

pub Returns-imp :
    {A : Type 0} (P Q : A → Type 0) (m : Outcome A)
    → ((a : A) → P a → Q a)
    → Returns P m
    → Returns Q m
Returns-imp P Q (returns a) f h = f a h
Returns-imp P Q (throws e) f h = tt
Returns-imp P Q aborts f h = tt
Returns-imp P Q undefined f h = tt

pub read_element-Returns : (s : Stream) → Returns (λ r. left r.1 < left s) (read_element s)
unfolding read_element
read_element-Returns s =
    Returns-bind (λ r. left r.1 < left s) (λ r. left r.1 < left s) (read_length fits_int s)
      (λ r. read_string r.0.0 r.0.1 r.1) (read_length-Returns fits_int s)
      (λ r h.
        Returns-imp (λ q. left q.1 ≤ left r.1) (λ q. left q.1 < left s)
          (read_string r.0.0 r.0.1 r.1) (λ q k. omega (arith, h, k))
          (read_string-Returns r.0.0 r.0.1 r.1))

get_bytes-le : (n : ℕ) (s : Stream) → left (get_bytes n s).1 ≤ left s
unfolding get_bytes
get_bytes-le zero s = omega arith
get_bytes-le (suc n) s =
    omega
      (arith, get_bytes-le n (get s).1, Took-le (get s).0 (left s) (left (get s).1) (get-Took s))

pub Returns-anything : {A : Type 0} (m : Outcome A) → Returns (λ a. Unit {0}) m
Returns-anything (returns a) = tt
Returns-anything (throws e) = tt
Returns-anything aborts = tt
Returns-anything undefined = tt

pub read_value-Returns :
    (reserve : Reserve) (s : Stream) → Returns (λ r. left r.1 < left s) (read_value reserve s)
unfolding read_value
read_value-Returns reserve s =
    Returns-bind (λ r. left r.1 < left s) (λ r. left r.1 < left s) (read_length fits_size s) _
      (read_length-Returns fits_size s)
      (λ r h.
        Returns-bind (λ u. Unit) (λ q. left q.1 < left s) (reserve _) _
          (Returns-anything (reserve _))
          (λ u k.
            omega
              (arith, h, get_bytes-le (if r.0.0 then (2 ^ 64 - r.0.1) % 2 ^ 64 else r.0.1) r.1)))
