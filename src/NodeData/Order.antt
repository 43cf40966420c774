-- ===== src/NodeData/Order.antt =====
-- The comparisons of NodeData.h against the order of 160-bit numbers.
use torrent_sync.Common.{◌<◌, ◌≤◌, ◌≡◌, ◌↔◌, not, true, arith}
use torrent_sync.NodeData.{NodeData, IsNodeData, value, eq, ne, lt, le, gt, ge}

pub eq_iff : (a b : NodeData) → (eq a b ≡ true) ↔ (a ≡ b)
unfolding eq
eq_iff a b = ground arith

-- `!=` is the negation of `==`, and `>` and `>=` are `<` and `<=` turned round.
pub duals : (a b : NodeData) → (ne a b ≡ not (eq a b)) × (gt a b ≡ lt b a) × (ge a b ≡ le b a)
unfolding eq ne lt le gt ge
duals a b = (ground arith, ground arith, ground arith)

module _ (a b : NodeData) (ha : IsNodeData a) (hb : IsNodeData b) where
  -- On identifiers whose words are in range `operator<` is the order of the 160-bit numbers.
  pub lt_iff : (lt a b ≡ true) ↔ (value a < value b)
  unfolding lt
  lt_iff = ground arith

  pub le_iff : (le a b ≡ true) ↔ (value a ≤ value b)
  unfolding le
  le_iff = ground arith

  pub gt_iff : (gt a b ≡ true) ↔ (value b < value a)
  unfolding gt
  gt_iff = ground arith

  pub ge_iff : (ge a b ≡ true) ↔ (value b ≤ value a)
  unfolding ge
  ge_iff = ground arith

  pub value_injective : value a ≡ value b → a ≡ b
  value_injective h = ground arith
