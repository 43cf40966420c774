-- ===== src/Callback.antt =====
-- torrentsync/dht/Callback.h and Callback.cpp: what is called when an awaited message arrives, and
-- which messages it waits for. `now` is what `time(NULL)` returns.
pub mod Constraints
use torrent_sync.Common.{
  ℕ, ◌+◌, Bool, true, false, ◌&&◌, ◌||◌, not, ltb, if◌then◌else◌, Option, none, some, Outcome,
  returns, assert, ◌>>=◌, ◌>>◌, ◌==◌,
}
use torrent_sync.NodeData.{NodeData, eq, ne}
use torrent_sync.NodeData.Codec.{Buffer, Endian, from_buffer}
use torrent_sync.Bencode.Encoder.{lexicographical_compare}
use torrent_sync.Message.Text.{equals}
use torrent_sync.Message.{Message, get_id, get_transaction_id}

-- The functions that the program registers: `doPing` marks the node as good, and
-- `initializeTable` collects the nodes of the reply.
pub data Action : Type 0 where
  mark_good : Action
  collect_nodes : Action

pub record Callback : Type 0 where
  pub action : Action
  pub source : Option NodeData
  pub transaction_id : Buffer
  pub creation_time : ℕ

-- 3 minutes.
abbrev pub time_limit : ℕ
time_limit = 180

unfoldable pub make_callback : ℕ → Action → Option NodeData → Buffer → Callback
make_callback now action source transaction_id = record {
  action = action;
  source = source;
  transaction_id = transaction_id;
  creation_time = now;
}

-- `difftime(time(NULL),_creation_time) > TIME_LIMIT`.
unfoldable pub is_old : ℕ → Callback → Bool
is_old now c = ltb (c.creation_time + time_limit) now

-- `!!_source && *_source != message.getID()`, where the bytes are made an identifier.
unfoldable pub other_source : Endian → Option NodeData → Message → Outcome Bool
unfolding ne
other_source e none m = returns false
other_source e (some source) m = do
  id ← get_id m
  sender ← from_buffer e id
  returns (ne source sender)

unfoldable pub verify_constraints : Endian → Callback → Message → Outcome Bool
unfolding other_source equals
verify_constraints e c m = other_source e c.source m >>= λ other.
    if other
    then returns false
    else (get_transaction_id m >>= λ id. returns (equals c.transaction_id id))

-- `==` on two `boost::optional`.
unfoldable pub same_source : Option NodeData → Option NodeData → Bool
unfolding eq
same_source none none = true
same_source none (some b) = false
same_source (some a) none = false
same_source (some a) (some b) = eq a b

-- `operator==`, whose assertions hold callbacks of one transaction together.
unfoldable pub same_callback : Callback → Callback → Outcome Bool
unfolding same_source equals
same_callback a b =
    if equals a.transaction_id b.transaction_id
    then (assert (same_source a.source b.source) >>= λ _.
        assert (a.creation_time == b.creation_time) >>= λ _. returns true)
    else returns false

-- `operator<=`.
unfoldable pub up_to : Callback → Callback → Bool
unfolding lexicographical_compare
up_to a b = not (lexicographical_compare b.transaction_id a.transaction_id)
