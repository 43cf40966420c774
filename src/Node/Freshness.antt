-- ===== src/Node/Freshness.antt =====
-- Good, questionable and bad nodes.
use torrent_sync.Common.{ℕ, ◌+◌, ◌≤◌, ◌≡◌, ◌⊎◌, true, false, not, ltb, arith}
use torrent_sync.Node.{Node, set_good, copy, is_good, is_questionable, is_bad}

-- A node is in exactly one of the three states.
pub one_state :
    (now : ℕ) (n : Node)
    → ((is_good now n ≡ true) × (is_questionable now n ≡ false) × (is_bad now n ≡ false))
      ⊎ (((is_good now n ≡ false) × (is_questionable now n ≡ true) × (is_bad now n ≡ false))
          ⊎ ((is_good now n ≡ false) × (is_questionable now n ≡ false) × (is_bad now n ≡ true)))
unfolding is_good is_questionable is_bad
one_state now n = ground arith

-- A node that is marked is good for 15 minutes and questionable from then on; a copy is never bad.
pub set_good_lasts :
    (now later : ℕ) (n : Node)
    → (is_good later (set_good now n) ≡ ltb later (now + 900))
      × (is_questionable later (set_good now n) ≡ not (ltb later (now + 900)))
      × (is_bad later (copy now n) ≡ false)
unfolding is_good is_questionable is_bad set_good copy
set_good_lasts now later n = (ground arith, ground arith, ground arith)

-- Time alone does not make a bad node better.
pub is_bad_mono :
    (now later : ℕ) (n : Node) → now ≤ later → is_bad now n ≡ true → is_bad later n ≡ true
unfolding is_good is_bad
is_bad_mono now later n h b = ground arith
