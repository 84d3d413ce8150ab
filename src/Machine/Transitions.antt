-- ===== src/Machine/Transitions.antt =====
-- Which histories of `transition` calls the machine of src/machine.rs allows.
use aer_core.Base.{◌≡◌, refl, ◌⊎◌, inl, inr, ok, err, List, [], ◌∷◌, arith}
use aer_core.State.{State}
use aer_core.Error.{invalid_state_transition}
use aer_core.Machine.{StateMachine, new, transition, grants}

-- The edges of the state diagram in the behavioural specification, section 1.
pub data Edge : State → State → Type 0 where
  spawn : Edge State.created State.running
  exit : Edge State.running State.exited

module _ {ℓ} (E : Type ℓ) where
  -- `transition` takes exactly the edges of the diagram: along an edge it moves to the requested
  -- state and succeeds; for any other request it leaves the machine as it was and its error names
  -- both states.
  pub transition-Edge :
      (m : StateMachine) (next : State)
      → (Edge m.state next × (transition {E = E} m next ≡ (record m { state = next }, ok tt)))
        ⊎ ((¬ Edge m.state next)
            × (transition {E = E} m next ≡ (m, err (invalid_state_transition m.state next))))
  unfolding transition
  transition-Edge m next = edges m.state next
    where
      edges :
          (s t : State)
          → (Edge s t
              × (transition {E = E} (record { state = s }) t ≡ (record { state = t }, ok tt)))
            ⊎ ((¬ Edge s t)
                × (transition {E = E} (record { state = s }) t
                    ≡ (record { state = s }, err (invalid_state_transition s t))))
      edges State.created State.created = inr (elim [ ], refl)
      edges State.created State.running = inl (spawn, refl)
      edges State.created State.exited = inr (elim [ ], refl)
      edges State.running State.created = inr (elim [ ], refl)
      edges State.running State.running = inr (elim [ ], refl)
      edges State.running State.exited = inl (exit, refl)
      edges State.exited State.created = inr (elim [ ], refl)
      edges State.exited State.running = inr (elim [ ], refl)
      edges State.exited State.exited = inr (elim [ ], refl)

  grants-exited : (requests : List State) → grants E (record { state = State.exited }) requests ≡ []
  unfolding grants
  grants-exited [] = refl
  grants-exited (State.created ∷ requests) = grants-exited requests
  grants-exited (State.running ∷ requests) = grants-exited requests
  grants-exited (State.exited ∷ requests) = grants-exited requests

  grants-running :
      (requests : List State)
      → let g = grants E (record { state = State.running }) requests in
        (g ≡ []) ⊎ (g ≡ State.exited ∷ [])
  unfolding grants
  grants-running [] = inl refl
  grants-running (State.created ∷ requests) = grants-running requests
  grants-running (State.running ∷ requests) = grants-running requests
  grants-running (State.exited ∷ requests) = inr (ap_cons (grants-exited requests))
    where
      ap_cons : {xs : List State} → xs ≡ [] → State.exited ∷ xs ≡ State.exited ∷ []
      ap_cons e = cc

  -- Whatever sequence of transitions is requested of a new machine, it grants nothing, or
  -- `running` alone, or `running` and then `exited`: no state is entered twice and none is left
  -- backwards.
  grants-new :
      (requests : List State)
      → let g = grants E new requests in
        (g ≡ []) ⊎ (g ≡ State.running ∷ []) ⊎ (g ≡ State.running ∷ State.exited ∷ [])
  unfolding new grants
  grants-new [] = inl refl
  grants-new (State.created ∷ requests) = grants-new requests
  grants-new (State.running ∷ requests) = ground (arith, grants-running requests)
  grants-new (State.exited ∷ requests) = grants-new requests
