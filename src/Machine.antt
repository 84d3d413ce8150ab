-- ===== src/Machine.antt =====
-- src/machine.rs: the state machine that each run drives. A method on `&mut self` returns the new
-- machine beside its result.
pub mod Transitions
mod Examples
use aer_core.Base.{Result, ok, err, List, [], ◌∷◌, Bool, true, false, if◌then◌else◌}
use aer_core.State.{State}
use aer_core.Error.{AerError, invalid_state_transition}

-- `struct StateMachine`
pub record StateMachine : Type 0 where
  pub state : State

-- `StateMachine::new`
unfoldable pub new : StateMachine
new = record { state = State.created }

-- the `matches!` of `transition`
legal : State → State → Bool
legal State.created State.running = true
legal State.running State.exited = true
legal _ _ = false

-- `StateMachine::transition`
unfoldable pub transition {ℓ} :
    {E : Type ℓ} → StateMachine → State → StateMachine × Result (Unit {0}) (AerError E)
unfolding legal
transition m next =
    if legal m.state next
    then (record m { state = next }, ok tt)
    else (m, err (invalid_state_transition m.state next))

-- `StateMachine::current`
unfoldable pub current : StateMachine → State
current m = m.state

module _ {ℓ} (E : Type ℓ) where
  granted : Result (Unit {0}) (AerError E) → State → List State → List State
  granted (ok _) next rest = next ∷ rest
  granted (err _) next rest = rest

  -- The requests that a machine grants, in order, when each of a list is made in turn.
  pub grants : StateMachine → List State → List State
  unfolding granted transition
  grants m [] = []
  grants m (next ∷ requests) =
      let r = transition {E = E} m next in granted r.1 next (grants r.0 requests)
