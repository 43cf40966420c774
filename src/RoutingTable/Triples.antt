-- ===== src/RoutingTable/Triples.antt =====
-- Conditions before and after a function of the table, for what it returns and for what it throws;
-- a failed assertion ends the program, and leaves nothing to state.
use torrent_sync.Common.{
  ◌≡◌, refl, Bool, true, false, if◌then◌else◌, Outcome, returns, throws, aborts, undefined,
}
use torrent_sync.RoutingTable.{RoutingTable, Handler, lift, gets, modify, carry_on, ◌>>=◌}

module _ {A : Type 0} where
  abbrev pub Ended :
      (A → RoutingTable → Type 0) → (RoutingTable → Type 0) → Outcome A × RoutingTable → Type 0
  Ended Q E (returns a, s) = Q a s
  Ended Q E (throws e, s) = E s
  Ended Q E (aborts, s) = Unit {0}
  Ended Q E (undefined, s) = Unit {0}

-- From states of `P` the function returns in `Q`, or throws in `E`.
pub record Leads {A : Type 0} (P : RoutingTable → Type 0) (m : Handler A)
    (Q : A → RoutingTable → Type 0) (E : RoutingTable → Type 0) : Type 0 where
  pub holds : (s : RoutingTable) → P s → Ended Q E (m s)

-- An invariant that a function keeps, also when it throws.
abbrev pub Keeps : {A : Type 0} → (RoutingTable → Type 0) → Handler A → Type 0
Keeps P m = Leads P m (λ a. P) P

module _ {A B : Type 0} {P E : RoutingTable → Type 0} {Q : A → RoutingTable → Type 0}
    {R : B → RoutingTable → Type 0} where
  pub Leads->>= :
      {m : Handler A} {k : A → Handler B}
      → Leads P m Q E
      → ((a : A) → Leads (Q a) (k a) R E)
      → Leads P (m >>= k) R E
  Leads->>= {m = m} {k = k} first then_on = record { holds = λ s p. at (m s) (first.holds s p) }
    where
      at : (r : Outcome A × RoutingTable) → Ended Q E r → Ended R E (carry_on r k)
      at (returns a, t) q = (then_on a).holds t q
      at (throws e, t) q = q
      at (aborts, t) q = tt
      at (undefined, t) q = tt

module _ {A : Type 0} {P E : RoutingTable → Type 0} where
  -- A part that does not touch the state tells what it returned.
  pub Leads-lift :
      (o : Outcome A)
      → ((s : RoutingTable) → P s → E s)
      → Leads P (lift o) (λ a s. (o ≡ returns a) × P s) E
  Leads-lift o weaken = record { holds = at o }
    where
      at : (r : Outcome A) (s : RoutingTable) → P s → Ended (λ a s. (r ≡ returns a) × P s) E (r, s)
      at (returns a) s p = (refl, p)
      at (throws e) s p = weaken s p
      at aborts s p = tt
      at undefined s p = tt

  -- A part that reads the state, and may fail.
  pub Leads-reads :
      (f : RoutingTable → Outcome A)
      → ((s : RoutingTable) → P s → E s)
      → Leads P (λ s. (f s, s)) (λ a. P) E
  Leads-reads f weaken = record { holds = λ s p. at (f s) s p }
    where
      at : (o : Outcome A) (s : RoutingTable) → P s → Ended (λ a. P) E (o, s)
      at (returns a) s p = p
      at (throws x) s p = weaken s p
      at aborts s p = tt
      at undefined s p = tt

  -- The same, for what the function reads of the state.
  pub Leads-gets : (f : RoutingTable → A) → Leads P (gets f) (λ a s. (f s ≡ a) × P s) E
  Leads-gets f = record { holds = λ s p. (refl, p) }

module _ {P Q E : RoutingTable → Type 0} where
  pub Leads-modify :
      (f : RoutingTable → RoutingTable)
      → ((s : RoutingTable) → P s → Q (f s))
      → Leads P (modify f) (λ u. Q) E
  Leads-modify f step = record { holds = step }

module _ {A : Type 0} {P E : RoutingTable → Type 0} {Q : A → RoutingTable → Type 0} where
  pub Leads-if :
      (b : Bool) (m k : Handler A)
      → Leads P m Q E
      → Leads P k Q E
      → Leads P (if b then m else k) Q E
  Leads-if true m k hm hk = hm
  Leads-if false m k hm hk = hk
