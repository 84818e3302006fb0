-- ===== src/Accounts/Sessions/Revocation.antt =====
-- `revoke_all_sessions` closes every session of the customer, and no other.
use be_py_eco.Prelude.{ℕ, ◌≡◌, ◌⊎◌, false, List, [], ◌∷◌, arith, update_rows}
use be_py_eco.Schema.{Customer, Session}
use be_py_eco.World.{World}
use be_py_eco.Accounts.Sessions.{revoke, is_open_session, revoke_all_sessions}

-- no session of the customer is open
abbrev pub NoOpenSessions : ℕ → List Session → Type 0
NoOpenSessions customer [] = Unit
NoOpenSessions customer (s ∷ rest) =
    (is_open_session customer s ≡ false) × NoOpenSessions customer rest

-- the two lists agree on the sessions of others
abbrev pub SameForOthers : ℕ → List Session → List Session → Type 0
SameForOthers customer [] [] = Unit
SameForOthers customer (s ∷ rest) (s' ∷ rest') =
    (s'.id ≡ s.id)
    × (s'.customer ≡ s.customer)
    × ((s.customer ≡ customer) ⊎ (s' ≡ s))
    × SameForOthers customer rest rest'
SameForOthers customer _ _ = ⊥

pub update-closes :
    (customer at : ℕ) (rows : List Session)
    → NoOpenSessions customer (update_rows (is_open_session customer) (revoke at) rows)
      × SameForOthers customer rows (update_rows (is_open_session customer) (revoke at) rows)
unfolding update_rows
update-closes customer at [] = (tt, tt)
update-closes customer at (s ∷ rest) = ground (arith, update-closes customer at rest)

-- After `revoke_all_sessions` the customer has no open session; the sessions of other customers
-- are as before, in the same order.
revoke_all_sessions_lem :
    (customer : Customer) (w : World)
    → NoOpenSessions customer.id (revoke_all_sessions customer w).1.db.sessions
      × SameForOthers customer.id w.db.sessions (revoke_all_sessions customer w).1.db.sessions
unfolding revoke_all_sessions
revoke_all_sessions_lem customer w = update-closes customer.id (w.clock 0) w.db.sessions
