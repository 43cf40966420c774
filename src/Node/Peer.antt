-- ===== src/Node/Peer.antt =====
-- The six bytes of an endpoint, read and written by Node.cpp.
use torrent_sync.Common.{
  ◌∙◌, ap, ℕ, ◌+◌, ◌*◌, ◌/◌, ◌%◌, ◌^◌, ◌≤◌, ◌<◌, ◌≡◌, refl, [], ◌∷◌, ◌++◌, length, drop, arith,
  returns,
}
use torrent_sync.NodeData.Codec.{Buffer, Endian, little, big, htonl, htons}
use torrent_sync.NodeData.Codec.BigEndian.{IsBytes}
use torrent_sync.NodeData.Codec.RoundTrip.{IsBytes-drop, length-drop}
use torrent_sync.Node.{Endpoint, add_bytes, read_peer, pack_endpoint}

-- What the host makes of six bytes.
abbrev pub peer_of : Endian → ℕ → ℕ → ℕ → ℕ → ℕ → ℕ → Endpoint
peer_of e a b c d h l = record {
  address = htonl e (a * 2 ^ 24 + b * 2 ^ 16 + c * 2 ^ 8 + d);
  port = htons e (h * 2 ^ 8 + l);
}

add_bytes_four :
    (g a b c d : ℕ) (rest : Buffer)
    → a < 256
    → b < 256
    → c < 256
    → d < 256
    → add_bytes 4 g (a ∷ b ∷ c ∷ d ∷ rest) ≡ returns (a * 2 ^ 24 + b * 2 ^ 16 + c * 2 ^ 8 + d, rest)
unfolding add_bytes
add_bytes_four g a b c d rest ha hb hc hd = ap (λ x. returns (x, rest)) (omega arith)

-- The stack data in `address` is shifted out: it does not reach the result.
pub read_peer_six :
    (e : Endian) (g a b c d h l : ℕ) (rest : Buffer)
    → IsBytes (a ∷ b ∷ c ∷ d ∷ h ∷ l ∷ [])
    → read_peer e g (a ∷ b ∷ c ∷ d ∷ h ∷ l ∷ rest) ≡ returns (peer_of e a b c d h l)
unfolding read_peer
read_peer_six e g a b c d h l rest bytes =
    let p : (h * 2 ^ 8 % 2 ^ 16 + l) % 2 ^ 16 ≡ h * 2 ^ 8 + l = omega arith in
    rw
      (
        add_bytes_four (g % 2 ^ 32) a b c d (h ∷ l ∷ rest) (omega arith) (omega arith) (omega arith)
            (omega arith),
        p,
      )
      refl

pub htonl_twice : (e : Endian) (x : ℕ) → x < 2 ^ 32 → htonl e (htonl e x) ≡ x
unfolding htonl
htonl_twice little x h = omega arith
htonl_twice big x h = refl

htons_twice : (e : Endian) (x : ℕ) → x < 2 ^ 16 → htons e (htons e x) ≡ x
unfolding htons
htons_twice little x h = omega arith
htons_twice big x h = refl

htonl-lt : (e : Endian) (x : ℕ) → x < 2 ^ 32 → htonl e x < 2 ^ 32
unfolding htonl
htonl-lt little x h = omega arith
htonl-lt big x h = h

htons-lt : (e : Endian) (x : ℕ) → x < 2 ^ 16 → htons e x < 2 ^ 16
unfolding htons
htons-lt little x h = omega arith
htons-lt big x h = h

pub pack_endpoint-peer_of :
    (e : Endian) (a b c d h l : ℕ)
    → IsBytes (a ∷ b ∷ c ∷ d ∷ h ∷ l ∷ [])
    → pack_endpoint e (peer_of e a b c d h l) ≡ a ∷ b ∷ c ∷ d ∷ h ∷ l ∷ []
unfolding pack_endpoint
pack_endpoint-peer_of e a b c d h l bytes =
    rw
      (
        htonl_twice e (a * 2 ^ 24 + b * 2 ^ 16 + c * 2 ^ 8 + d) (omega arith),
        htons_twice e (h * 2 ^ 8 + l) (omega arith),
      )
      (ground arith)

pub read_peer-pack_endpoint :
    (e : Endian) (g : ℕ) (p : Endpoint) (rest : Buffer)
    → p.address < 2 ^ 32
    → p.port < 2 ^ 16
    → read_peer e g (pack_endpoint e p ++ rest) ≡ returns p
unfolding pack_endpoint
read_peer-pack_endpoint e g p rest ha hp =
    let x = htonl e p.address in
    let y = htons e p.port in
    let hx : x < 2 ^ 32 = htonl-lt e p.address ha in
    let hy : y < 2 ^ 16 = htons-lt e p.port hp in
    let ex : x / 2 ^ 24 % 256 * 2 ^ 24
          + x / 2 ^ 16 % 256 * 2 ^ 16
          + x / 2 ^ 8 % 256 * 2 ^ 8
          + x % 256
        ≡ x =
      omega arith in
    let ey : y / 2 ^ 8 % 256 * 2 ^ 8 + y % 256 ≡ y = omega arith in
    read_peer_six e g _ _ _ _ _ _ rest (omega arith)
    ∙ ap returns (λ i. record {
      address = (ap (htonl e) ex ∙ htonl_twice e p.address ha) i;
      port = (ap (htons e) ey ∙ htons_twice e p.port hp) i;
    })

-- Six bytes behind the identifier.
pub split_six :
    (bs : Buffer)
    → 26 ≤ length bs
    → IsBytes bs
    → (a b c d h l : ℕ) × (rest : Buffer) × (drop 20 bs ≡ a ∷ b ∷ c ∷ d ∷ h ∷ l ∷ rest)
      × IsBytes (a ∷ b ∷ c ∷ d ∷ h ∷ l ∷ [])
split_six bs long bytes =
    go (drop 20 bs) refl (omega (arith, length-drop 20 bs)) (IsBytes-drop 20 bs bytes)
  where
    go :
        (r : Buffer)
        → drop 20 bs ≡ r
        → 6 ≤ length r
        → IsBytes r
        → (a b c d h l : ℕ) × (rest : Buffer) × (drop 20 bs ≡ a ∷ b ∷ c ∷ d ∷ h ∷ l ∷ rest)
          × IsBytes (a ∷ b ∷ c ∷ d ∷ h ∷ l ∷ [])
    go (a ∷ b ∷ c ∷ d ∷ h ∷ l ∷ rest) e le ok = (a, b, c, d, h, l, rest, e, (omega arith))
    go r e le ok = absurd (omega arith)
