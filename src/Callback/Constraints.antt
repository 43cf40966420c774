-- ===== src/Callback/Constraints.antt =====
-- Which messages `verifyConstraints` of a callback accepts.
use torrent_sync.Common.{
  ap, sym, ◌∙◌, ◌≡◌, ◌↔◌, refl, Bool, true, false, Option, none, some, [], ◌∷◌, returns, arith,
  if◌then◌else◌, returns_injective,
}
use torrent_sync.NodeData.{NodeData, ne}
use torrent_sync.NodeData.Order.{eq_iff}
use torrent_sync.NodeData.Codec.{Buffer, Endian, from_buffer}
use torrent_sync.Message.Text.{equals}
use torrent_sync.Message.{Message, get_id, get_transaction_id}
use torrent_sync.Callback.{Callback, other_source, verify_constraints}

-- The identifier is that of the node that is waited for, if one is.
abbrev pub IsFrom : Option NodeData → NodeData → Type 0
IsFrom none sender = Unit
IsFrom (some source) sender = source ≡ sender

equals_iff : (a b : Buffer) → (equals a b ≡ true) ↔ (a ≡ b)
unfolding equals
equals_iff [] [] = ((λ e. refl), (λ e. refl))
equals_iff [] (y ∷ b) = ((λ e. ground arith), (λ e. cc))
equals_iff (x ∷ a) [] = ((λ e. ground arith), (λ e. cc))
equals_iff (x ∷ a) (y ∷ b) = ground (arith, equals_iff a b)

other_source_iff :
    (e : Endian) (source : Option NodeData) (m : Message) (id : Buffer) (sender : NodeData)
    → get_id m ≡ returns id
    → from_buffer e id ≡ returns sender
    → (other : Bool) × (other_source e source m ≡ returns other)
      × ((other ≡ false) ↔ IsFrom source sender)
unfolding other_source ne
other_source_iff e none m id sender known converted = (false, refl, ((λ e. tt), (λ e. refl)))
other_source_iff e (some source) m id sender known converted =
    (ne source sender, rw (known, converted) refl, ground (arith, eq_iff source sender))

-- What `verifyConstraints` returns on a message with an identifier and a transaction.
pub verify_constraints_value :
    (e : Endian) (c : Callback) (m : Message) (id tid : Buffer) (sender : NodeData)
    → get_id m ≡ returns id
    → from_buffer e id ≡ returns sender
    → get_transaction_id m ≡ returns tid
    → (ok : Bool) × (verify_constraints e c m ≡ returns ok)
      × ((ok ≡ true) ↔ (IsFrom c.source sender × (c.transaction_id ≡ tid)))
unfolding verify_constraints
verify_constraints_value e c m id tid sender known converted same =
    let (other, tells, iff) = other_source_iff e c.source m id sender known converted in
    rw (tells, same)
      (accepted other (equals c.transaction_id tid) iff (equals_iff c.transaction_id tid))
  where
    accepted :
        {P Q : Type 0} (other found : Bool)
        → (other ≡ false) ↔ P
        → (found ≡ true) ↔ Q
        → (ok : Bool) × ((if other then returns false else returns found) ≡ returns ok)
          × ((ok ≡ true) ↔ (P × Q))
    accepted true found p q = (false, refl, ((λ e. cc), (λ r. sym (p.1 r.0))))
    accepted false found p q = (found, refl, ((λ e. (p.0 refl, q.0 e)), (λ r. q.1 r.1)))

-- On a message with an identifier and a transaction, `verifyConstraints` accepts exactly the
-- transaction of the callback, from the node that it waits for, if it waits for one.
pub verify_constraints_iff :
    (e : Endian) (c : Callback) (m : Message) (id tid : Buffer) (sender : NodeData)
    → get_id m ≡ returns id
    → from_buffer e id ≡ returns sender
    → get_transaction_id m ≡ returns tid
    → (verify_constraints e c m ≡ returns true)
      ↔ (IsFrom c.source sender × (c.transaction_id ≡ tid))
verify_constraints_iff e c m id tid sender known converted same =
    let (ok, value, iff) = verify_constraints_value e c m id tid sender known converted same in
    ((λ r. iff.0 (returns_injective (sym value ∙ r))), (λ r. value ∙ ap returns (iff.1 r)))
