-- ===== src/Node.antt =====
-- torrentsync/dht/Node.h and Node.cpp: an identifier with its endpoint and how lately it answered.
-- `now` is what `time(0)` returns.
pub mod Tests
pub mod Freshness
pub mod Peer
pub mod Packed
use torrent_sync.Common.{
  ◌≡◌, ℕ, zero, suc, ◌+◌, ◌-◌, ◌*◌, ◌/◌, ◌%◌, ◌^◌, Bool, ◌&&◌, not, ltb, leb, if◌then◌else◌, Option,
  none, some, List, [], ◌∷◌, ◌++◌, length, drop, Outcome, returns, throws, aborts, undefined,
  invalid_argument, ◌>>=◌, ◌>>◌,
}
use torrent_sync.NodeData.{NodeData}
use torrent_sync.NodeData.Codec.{Buffer, Endian, htonl, htons, from_buffer, write}
use torrent_sync.NodeData.Codec

-- A `udp::endpoint` over IPv4: the address as `to_ulong` gives it, and the port.
pub record Endpoint : Type 0 where
  pub address : ℕ
  pub port : ℕ

pub Endpoint_ext : {a b : Endpoint} → a.address ≡ b.address → a.port ≡ b.port → a ≡ b
Endpoint_ext e1 e2 = λ i. record { address = e1 i; port = e2 i }

pub record Node : Type 0 where
  pub id : NodeData
  pub last_time_good : ℕ
  pub last_unanswered_queries : ℕ
  pub endpoint : Option Endpoint

-- 15 minutes.
abbrev pub good_interval : ℕ
good_interval = 900

abbrev pub allowed_unanswered_queries : ℕ
allowed_unanswered_queries = 10

abbrev pub packed_node_size : ℕ
packed_node_size = 26

abbrev pub peer_data_length : ℕ
peer_data_length = 6

unfoldable pub set_good : ℕ → Node → Node
set_good now n = record n { last_time_good = now; last_unanswered_queries = 0 }

-- The copy constructor assigns every field and then calls `setGood`.
unfoldable pub copy : ℕ → Node → Node
unfolding set_good
copy now n = set_good now n

-- `Node( const utils::Buffer&, const boost::optional<udp::endpoint>& )`.
unfoldable pub make_node : Endian → ℕ → Buffer → Option Endpoint → Outcome Node
make_node e now buff endpoint = do
  id ← from_buffer e buff
  returns
      (record { id = id; last_time_good = now; last_unanswered_queries = 0; endpoint = endpoint })

-- `_last_time_good > time(0)-good_interval`, on integers that do not overflow.
unfoldable pub is_good : ℕ → Node → Bool
is_good now n = ltb now (n.last_time_good + good_interval)

unfoldable pub is_questionable : ℕ → Node → Bool
unfolding is_good
is_questionable now n =
    not (is_good now n) && leb n.last_unanswered_queries allowed_unanswered_queries

unfoldable pub is_bad : ℕ → Node → Bool
unfolding is_good
is_bad now n = not (is_good now n) && ltb allowed_unanswered_queries n.last_unanswered_queries

unfoldable pub set_endpoint : Endpoint → Node → Node
set_endpoint endpoint n = record n { endpoint = some endpoint }

-- `n` rounds of `address <<= 8; address += *begin++` on a `uint32_t`.
pub add_bytes : ℕ → ℕ → Buffer → Outcome (ℕ × Buffer)
add_bytes zero address bs = returns (address, bs)
add_bytes (suc n) address [] = undefined
add_bytes (suc n) address (b ∷ bs) = add_bytes n ((address * 2 ^ 8 % 2 ^ 32 + b) % 2 ^ 32) bs

-- `*begin++`.
pub next_byte : Buffer → Outcome (ℕ × Buffer)
next_byte [] = undefined
next_byte (b ∷ bs) = returns (b, bs)

-- The part of `Node::read` behind the length check. `stack` is what `address` holds before the
-- loop, since it is not initialised.
pub read_peer : Endian → ℕ → Buffer → Outcome Endpoint
unfolding next_byte
read_peer e stack bytes = do
  (address, rest1) ← add_bytes 4 (stack % 2 ^ 32) bytes
  (high, rest2) ← next_byte rest1
  (low, rest3) ← next_byte rest2
  returns (record {
    address = htonl e address;
    port = htons e ((high * 2 ^ 8 % 2 ^ 16 + low) % 2 ^ 16);
  })

-- `Node::read` on the bytes from `begin` to `end`; no byte at all is left to `read_peer`.
unfoldable pub read : Endian → ℕ → Buffer → Node → Outcome Node
read e stack bytes n = do
  id ← Codec.read bytes
  let left = length (drop 20 bytes)
  endpoint ←
      if ltb 0 left && ltb left peer_data_length
      then throws invalid_argument
      else (read_peer e stack (drop 20 bytes))
  returns (record n { id = id; endpoint = some endpoint })

-- `Node( begin, end )`: a fresh node, whose identifier is stack data, and then `read`.
unfoldable pub parse_node : Endian → ℕ → ℕ → NodeData → Buffer → Outcome Node
unfolding read
parse_node e stack now garbage bytes =
    read e stack bytes
      (record { id = garbage; last_time_good = now; last_unanswered_queries = 0; endpoint = none })

-- `buff.push_back`, which keeps the low byte.
abbrev pub byte : ℕ → ℕ
byte x = x % 2 ^ 8

unfoldable pub pack_endpoint : Endian → Endpoint → Buffer
pack_endpoint e p =
    let address = htonl e p.address in
    let port = htons e p.port in
    byte (address / 2 ^ 24)
    ∷ byte (address / 2 ^ 16)
    ∷ byte (address / 2 ^ 8)
    ∷ byte address
    ∷ byte (port / 2 ^ 8)
    ∷ byte port
    ∷ []

unfoldable pub get_packed_node : Endian → Node → Outcome Buffer
unfolding pack_endpoint
get_packed_node e n = elim n.endpoint [
  | none ↦ aborts
  | some p ↦ returns (write n.id ++ pack_endpoint e p)
]
