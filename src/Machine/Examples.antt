-- ===== src/Machine/Examples.antt =====
-- Tests of the state machine, and its theorems at concrete requests.
use aer_core.Base.{◌≡◌, refl, ◌⊎◌, ok, err, ℕ, [], ◌∷◌, List}
use aer_core.State.{State}
use aer_core.Error.{invalid_state_transition}
use aer_core.Machine.{new, transition, current, grants}
use aer_core.Machine.Transitions.{Edge, transition-Edge}

abbrev requests : List State
requests = State.exited ∷ State.running ∷ State.running ∷ State.exited ∷ State.created ∷ []

-- the unit test `happy_path_transitions`
happy_path :
    let m = (transition {E = ℕ} new State.running).0 in
    current (transition {E = ℕ} m State.exited).0 ≡ State.exited
unfolding new transition current
happy_path = refl

granted_requests : grants ℕ new requests ≡ State.running ∷ State.exited ∷ []
unfolding new grants
granted_requests = refl

transition-Edge_example :
    (Edge State.created State.exited
      × (transition {E = ℕ} (record { state = State.created }) State.exited
          ≡ (record { state = State.exited }, ok tt)))
    ⊎ ((¬ Edge State.created State.exited)
        × (transition {E = ℕ} (record { state = State.created }) State.exited ≡ (
          record { state = State.created },
          err (invalid_state_transition State.created State.exited),
        )))
transition-Edge_example = transition-Edge ℕ (record { state = State.created }) State.exited
