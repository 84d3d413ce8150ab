-- ===== src/Run/Cleanup.antt =====
-- No process is left behind: what `KillOnDropGuard` and `wait` together guarantee when `run_impl` of
-- src/task.rs ends.
pub mod Invariant
use aer_core.Base.{
  ℕ, String, Bool, true, false, ◌≡◌, refl, sym, subst, ◌⊎◌, inl, inr, Option, none, some, List, [],
  ◌∷◌, Result, ok, err, arith,
}
use aer_core.Error.{AerError}
use aer_core.Task.{Task, CancelHandle}
use aer_core.Run.System.{
  Outcome, returned, panicked, Pc, Call, Caller, spawned, waited, tree_alive, kill_escalating,
  reap_abandoned, KillOnDropGuard, System, Answer, init,
}
use aer_core.Run.Runner.{run_from, runner_step}
use aer_core.Run.Schedule.{Turn, turn_step, Reach, here, next}
use aer_core.Run.Frame.{Grown, same, probed, killed, Frame, cancel_step-Frame, monitor_step-Frame}

-- No process has been spawned.
abbrev pub Unspawned : {K : Type 0} → List (Call K) → Type 0
Unspawned [] = Unit
Unspawned (spawned k ∷ l) = ⊥
Unspawned (waited k code ∷ l) = Unspawned l
Unspawned (tree_alive who k alive ∷ l) = Unspawned l
Unspawned (kill_escalating who k grace ∷ l) = Unspawned l
Unspawned (reap_abandoned k ∷ l) = Unspawned l

-- `wait` has given an exit code.
abbrev pub Waited : {K : Type 0} → List (Call K) → Type 0
Waited [] = ⊥
Waited (spawned k ∷ l) = Waited l
Waited (waited k code ∷ l) = Unit
Waited (tree_alive who k alive ∷ l) = Waited l
Waited (kill_escalating who k grace ∷ l) = Waited l
Waited (reap_abandoned k ∷ l) = Waited l

-- The process that was spawned last.
abbrev pub Spawned : {K : Type 0} → K → List (Call K) → Type 0
Spawned k [] = ⊥
Spawned k (spawned k' ∷ l) = k' ≡ k
Spawned k (waited k' code ∷ l) = Spawned k l
Spawned k (tree_alive who k' alive ∷ l) = Spawned k l
Spawned k (kill_escalating who k' grace ∷ l) = Spawned k l
Spawned k (reap_abandoned k' ∷ l) = Spawned k l

-- The drop guard has killed the spawned tree, with no grace period.
abbrev pub DropKilled : {K : Type 0} → K → List (Call K) → Type 0
DropKilled k [] = ⊥
DropKilled k (kill_escalating Caller.guard k' grace ∷ l) = (k' ≡ k) × (grace ≡ 0) × Spawned k l
DropKilled k (kill_escalating who k' grace ∷ l) = DropKilled k l
DropKilled k (spawned k' ∷ l) = DropKilled k l
DropKilled k (waited k' code ∷ l) = DropKilled k l
DropKilled k (tree_alive who k' alive ∷ l) = DropKilled k l
DropKilled k (reap_abandoned k' ∷ l) = DropKilled k l

-- The drop guard has killed the spawned tree and has reaped its root after that.
abbrev pub Abandoned : {K : Type 0} → List (Call K) → Type 0
Abandoned [] = ⊥
Abandoned (reap_abandoned k ∷ l) = DropKilled k l
Abandoned (kill_escalating who k grace ∷ l) = Abandoned l
Abandoned (spawned k ∷ l) = Abandoned l
Abandoned (waited k code ∷ l) = Abandoned l
Abandoned (tree_alive who k alive ∷ l) = Abandoned l

-- How the process of a run is disposed of, by the run's outcome.
abbrev pub Cleaned : {K E : Type 0} → Outcome E → List (Call K) → Type 0
Cleaned (returned (ok u)) l = Waited l
Cleaned (returned (err AerError.timed_out)) l = Waited l
Cleaned (returned (err AerError.cancelled)) l = Waited l
Cleaned (returned (err (AerError.spawn_failed e))) l = Unspawned l
Cleaned (returned (err (AerError.wait_failed e))) l = Abandoned l
Cleaned (returned (err (AerError.invalid_state_transition from to))) l = Waited l ⊎ Abandoned l
Cleaned (returned (err (AerError.kill_failed e))) l = ⊥
Cleaned panicked l = Waited l ⊎ Abandoned l
