-- ===== src/RoutingTable/Transactions/Distinct.antt =====
-- The transactions that follow each other are told apart by their two bytes.
use torrent_sync.Common.{
  ap, sym, ◌∙◌, ℕ, zero, suc, ◌≡◌, ◌≢◌, ◌+◌, ◌*◌, ◌%◌, ◌^◌, ◌<◌, [], ◌∷◌, arith, returns,
  returns_injective,
}
use torrent_sync.NodeData.Codec.{Buffer}
use torrent_sync.RoutingTable.{RoutingTable, Handler, ◌>>=◌}
use torrent_sync.RoutingTable.Transactions.{transaction_bytes, count_transaction, new_transaction}

-- What the `n`-th call of `newTransaction` from now on returns.
abbrev pub later_transaction : ℕ → Handler Buffer
later_transaction zero = new_transaction
later_transaction (suc n) = new_transaction >>= λ _. later_transaction n

later_transaction-eq :
    (n : ℕ) (s : RoutingTable)
    → s.transaction_id < 2 ^ 16
    → (later_transaction n s).0 ≡ returns (transaction_bytes ((s.transaction_id + n) % 2 ^ 16))
unfolding new_transaction count_transaction
later_transaction-eq zero s h = ap (λ k. returns (transaction_bytes k)) (omega (arith, h))
later_transaction-eq (suc n) s h =
    later_transaction-eq n (count_transaction s) (omega arith)
    ∙ ap (λ k. returns (transaction_bytes k)) (omega arith)

-- The number of two bytes, the low one first.
abbrev number : Buffer → ℕ
number [] = 0
number (x ∷ xs) = x + 2 ^ 8 * number xs

number-transaction_bytes : (k : ℕ) → k < 2 ^ 16 → number (transaction_bytes k) ≡ k
unfolding transaction_bytes
number-transaction_bytes k h = omega (arith, h)

-- Of 65,536 calls of `newTransaction` that follow each other no two return the same bytes, and the
-- next call returns the bytes of the first one again.
pub later_transaction-distinct :
    (s : RoutingTable) (i j : ℕ)
    → s.transaction_id < 2 ^ 16
    → i < j
    → j < i + 2 ^ 16
    → ((later_transaction i s).0 ≢ (later_transaction j s).0)
      × ((later_transaction (i + 2 ^ 16) s).0 ≡ (later_transaction i s).0)
later_transaction-distinct s i j h before within = (differ, again)
  where
    apart : (s.transaction_id + i) % 2 ^ 16 ≢ (s.transaction_id + j) % 2 ^ 16
    apart e = omega (arith, e, before, within)

    differ : (later_transaction i s).0 ≢ (later_transaction j s).0
    differ e = apart (
        sym (number-transaction_bytes ((s.transaction_id + i) % 2 ^ 16) (omega arith))
        ∙ ap number
            (returns_injective (sym (later_transaction-eq i s h) ∙ e ∙ later_transaction-eq j s h))
        ∙ number-transaction_bytes ((s.transaction_id + j) % 2 ^ 16) (omega arith))

    again : (later_transaction (i + 2 ^ 16) s).0 ≡ (later_transaction i s).0
    again =
        later_transaction-eq (i + 2 ^ 16) s h
        ∙ ap (λ k. returns (transaction_bytes k)) (omega arith)
        ∙ sym (later_transaction-eq i s h)
