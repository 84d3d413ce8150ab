-- ===== src/Run/Cancelling.antt =====
-- What a call of `CancelHandle::cancel` brings about in a run (src/task.rs).
pub mod Verdict
pub mod Without
pub mod Killed
pub mod Heard
mod Begun
pub mod Own
pub mod Early
pub mod After
pub mod Once
pub mod Reuse
use aer_core.Base.{ℕ, ◌≡◌, Bool, true, false, Option, none, List, [], ◌∷◌, Result, ok, err}
use aer_core.Error.{AerError}
use aer_core.Task.{kill_grace}
use aer_core.Run.System.{
  CancelPc, Call, Caller, spawned, waited, tree_alive, kill_escalating, reap_abandoned, System,
}

-- The state of the handle beside the result of a run. `SpawnFailed` and `WaitFailed` say nothing.
abbrev pub Settled :
    {K E : Type 0} → Result (Unit {0}) (AerError E) → (kill_fired : Bool) → Option K → Type 0
Settled (ok u) kill_fired kill = (kill_fired ≡ false) × (kill ≡ none)
Settled (err AerError.timed_out) kill_fired kill = kill ≡ none
Settled (err AerError.cancelled) kill_fired kill = (kill_fired ≡ true) × (kill ≡ none)
Settled (err e) kill_fired kill = Unit

-- A cancel has called `kill_escalating` with the full grace period: in `cancel`, or in the test
-- that `run_impl` makes for it.
abbrev pub Shot : {K : Type 0} → List (Call K) → Type 0
Shot [] = ⊥
Shot (kill_escalating Caller.runner k grace ∷ l) = grace ≡ kill_grace
Shot (kill_escalating (Caller.canceller i) k grace ∷ l) = grace ≡ kill_grace
Shot (kill_escalating who k grace ∷ l) = Shot l
Shot (spawned k ∷ l) = Shot l
Shot (waited k code ∷ l) = Shot l
Shot (tree_alive who k alive ∷ l) = Shot l
Shot (reap_abandoned k ∷ l) = Shot l

-- A cancel has probed the tree and found it dead.
abbrev pub FoundDead : {K : Type 0} → List (Call K) → Type 0
FoundDead [] = ⊥
FoundDead (tree_alive Caller.runner k false ∷ l) = Unit
FoundDead (tree_alive (Caller.canceller i) k false ∷ l) = Unit
FoundDead (tree_alive who k alive ∷ l) = FoundDead l
FoundDead (kill_escalating who k grace ∷ l) = FoundDead l
FoundDead (spawned k ∷ l) = FoundDead l
FoundDead (waited k code ∷ l) = FoundDead l
FoundDead (reap_abandoned k ∷ l) = FoundDead l

-- A call of `cancel` that set the flag and has not returned.
abbrev pub is_busy : {K : Type 0} → CancelPc K → Bool
is_busy CancelPc.uncalled = false
is_busy CancelPc.back = false
is_busy _ = true

abbrev pub is_killing : {K : Type 0} → CancelPc K → Bool
is_killing (CancelPc.killing k) = true
is_killing _ = false
