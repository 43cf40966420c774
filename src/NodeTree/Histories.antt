-- ===== src/NodeTree/Histories.antt =====
-- Whole histories of the tree: calls of `addNode`, `removeNode` and `clear`, against the bag of
-- the nodes.
use mathlib.Core.List.{Perm}
use mathlib.Core.List.Perm
use torrent_sync.Common.{
  ap, ◌∙◌, sym, subst, ℕ, ◌≡◌, ◌≢◌, ◌≤◌, refl, true, some, List, [], ◌∷◌, ◌++◌, length,
  length-append, All, Outcome, returns, ◌>>=◌, arith,
}
use torrent_sync.NodeData.{IsNodeData}
use torrent_sync.Node.{Node, is_bad}
use torrent_sync.NodeBucket.{NodeBucket}
use torrent_sync.NodeBucket.Content.{length-perm}
use torrent_sync.NodeTree.{NodeTree, add_node, remove_node, clear, make_tree, dht_k}
use torrent_sync.NodeTree
use torrent_sync.NodeTree.Tiling.{IsTree}
use torrent_sync.NodeTree.Contents.{contents, others, contents-Spot}
use torrent_sync.NodeTree.Adding.{NoRoom}
use torrent_sync.NodeTree.AddNode.{TreeAdded, stored_in, refused_by, add_node-TreeAdded}
use torrent_sync.NodeTree.Removal.{
  NodeRemoved, erased, unchanged, remove_node-NodeRemoved, make_tree-IsTree, clear-make_tree,
  size-contents,
}

-- A call, with the time of an addition.
pub data Call : Type 0 where
  adds : ℕ → Node → Call
  removes : Node → Call
  clears : Call

unfoldable pub perform : Call → NodeTree → Outcome NodeTree
unfolding add_node remove_node clear
perform (adds now n) t = add_node now (some n) t >>= λ r. returns r.1
perform (removes n) t = remove_node (some n) t
perform clears t = returns (clear t)

unfoldable pub perform_calls : List Call → NodeTree → Outcome NodeTree
unfolding perform
perform_calls [] t = returns t
perform_calls (c ∷ cs) t = perform c t >>= λ t'. perform_calls cs t'

abbrev pub IsSafe : Call → Type 0
IsSafe (adds now n) = IsNodeData n.id
IsSafe (removes n) = IsNodeData n.id
IsSafe clears = Unit

-- What a call may do to the bag of the nodes.
pub data Change : Call → List Node → List Node → Type 0 where
  put :
      {now : ℕ} {n : Node} {xs ys : List Node} (dropped : List Node)
      → All (λ x. is_bad now x ≡ true) dropped
      → Perm (n ∷ xs) (dropped ++ ys)
      → Change (adds now n) xs ys
  turned_away :
      {now : ℕ} {n : Node} {xs ys : List Node}
      → Perm xs ys
      → dht_k ≤ length xs
      → Change (adds now n) xs ys
  taken :
      {n : Node} {xs ys : List Node} (m : Node)
      → m.id ≡ n.id
      → Perm xs (m ∷ ys)
      → Change (removes n) xs ys
  absent : {n : Node} {xs : List Node} → All (λ x. x.id ≢ n.id) xs → Change (removes n) xs xs
  emptied : {xs : List Node} → Change clears xs []

pub data Changes : List Call → List Node → List Node → Type 0 where
  at_end : {xs : List Node} → Changes [] xs xs
  after_call :
      {c : Call} {cs : List Call} {xs ys zs : List Node}
      → Change c xs ys
      → Changes cs ys zs
      → Changes (c ∷ cs) xs zs

record Performed (c : Call) (t : NodeTree) : Type 0 where
  after : NodeTree
  returned : perform c t ≡ returns after
  valid : IsTree after
  own : after.node ≡ t.node
  step : Change c (contents t.buckets) (contents after.buckets)

-- How a history ends.
pub record History (cs : List Call) (t : NodeTree) : Type 0 where
  pub after : NodeTree
  pub returned : perform_calls cs t ≡ returns after
  pub valid : IsTree after
  pub own : after.node ≡ t.node
  pub steps : Changes cs (contents t.buckets) (contents after.buckets)
  pub counted : NodeTree.size after ≡ length (contents after.buckets)

-- A tree that has no room for a node holds a full bucket.
full_bag :
    (bs bs' : List NodeBucket) (n : Node)
    → Perm (contents bs) (contents bs')
    → NoRoom n bs'
    → dht_k ≤ length (contents bs)
full_bag bs bs' n p no_room = omega (
  arith,
  length-perm (contents bs) (no_room.bucket.elements ++ others no_room.bucket bs')
      (Perm.trans p (contents-Spot no_room.bucket bs' no_room.spot)),
  no_room.is_full,
  length-append no_room.bucket.elements (others no_room.bucket bs'),
)

cleared : (t : NodeTree) → IsTree t → Performed clears t
unfolding perform
cleared t v =
    let new = make_tree-IsTree t.node v.own in
    record {
      after = clear t;
      returned = refl;
      valid = subst IsTree (sym (clear-make_tree t)) new.0;
      own = unfold clear in refl;
      step =
          subst (λ xs. Change clears (contents t.buckets) xs)
            (sym (ap (λ u. contents u.buckets) (clear-make_tree t) ∙ new.1)) emptied;
    }

added :
    (now : ℕ) (n : Node) (t : NodeTree)
    → TreeAdded now n t (add_node now (some n) t)
    → Performed (adds now n) t
unfolding perform
added now n t (stored_in t' dropped e v own bad p) = record {
  after = t';
  returned = ap (λ m. m >>= λ r. returns r.1) e;
  valid = v;
  own = own;
  step = put dropped bad p;
}
added now n t (refused_by t' e v own p no_room) = record {
  after = t';
  returned = ap (λ m. m >>= λ r. returns r.1) e;
  valid = v;
  own = own;
  step = turned_away p (full_bag t.buckets t'.buckets n p no_room);
}

removed :
    (n : Node) (t : NodeTree)
    → IsTree t
    → NodeRemoved n.id t (remove_node (some n) t)
    → Performed (removes n) t
unfolding perform
removed n t v (erased m t' e v' own same p) = record {
  after = t';
  returned = e;
  valid = v';
  own = own;
  step = taken m same p;
}
removed n t v (unchanged e none_here) = record {
  after = t;
  returned = e;
  valid = v;
  own = refl;
  step = absent none_here;
}

performed : (c : Call) (t : NodeTree) → IsSafe c → IsTree t → Performed c t
performed (adds now n) t h v = added now n t (add_node-TreeAdded now n t h v)
performed (removes n) t h v = removed n t v (remove_node-NodeRemoved n t h v)
performed clears t h v = cleared t v

-- From any valid tree, any calls of `addNode`, `removeNode` and `clear` with identifiers in range
-- return a valid tree with the same identifier of its own. The bag of its nodes goes the way of
-- the calls: an addition puts the node in and drops bad nodes only, or leaves at least eight
-- nodes as they are; a removal takes out one node with the identifier, or there is none. `size` is
-- the number of the nodes in the end.
pub perform_calls-History :
    (cs : List Call) (t : NodeTree) → All IsSafe cs → IsTree t → History cs t
unfolding perform_calls
perform_calls-History [] t h v = record {
  after = t;
  returned = refl;
  valid = v;
  own = refl;
  steps = at_end;
  counted = size-contents t;
}
perform_calls-History (c ∷ cs) t h v =
    let p = performed c t h.0 v in
    let rest = perform_calls-History cs p.after h.1 p.valid in
    record {
      after = rest.after;
      returned = ap (λ m. m >>= λ t'. perform_calls cs t') p.returned ∙ rest.returned;
      valid = rest.valid;
      own = rest.own ∙ p.own;
      steps = after_call p.step rest.steps;
      counted = rest.counted;
    }
