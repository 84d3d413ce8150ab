-- ===== src/Run/System.antt =====
-- The state that `run_impl`, the monitor thread and the calls of `cancel` share, and where each of
-- them stands. `K` is the platform's `KillHandle` and `E` is `io::Error`.
use aer_core.Base.{ℕ, ℤ, Bool, true, false, Option, none, List, [], Result}
use aer_core.Machine.{StateMachine, new}
use aer_core.Error.{AerError}
use aer_core.Event.{Event}
use aer_core.Os.{OsHandle, ChunkMsg}
use aer_core.Task.{CancelHandle}

-- How `run_impl` ends: it returns, or a panic unwinds through it.
pub data Outcome (E : Type 0) : Type 0 where
  returned : Result (Unit {0}) (AerError E) → Outcome E
  panicked : Outcome E

-- Where `run_impl` stands, with the locals that are live there.
pub data Pc (K E : Type 0) : Type 0 where
  spawning : Pc K E
  entering announcing wiring : OsHandle K → Pc K E
  -- the test of a cancel that came before the wiring
  checking_cancelled checking_fired probing marking killing : OsHandle K → Pc K E
  watching choosing : OsHandle K → Pc K E
  pumping settling waiting : OsHandle K → Pc K E
  disarming clearing : OsHandle K → (os_code : ℤ) → Pc K E
  stopping reading_timed_out : (os_code : ℤ) → Pc K E
  reading_fired : (os_code : ℤ) (was_timed_out : Bool) → Pc K E
  exiting reporting : (os_code : ℤ) (was_timed_out was_cancelled : Bool) → Pc K E
  finishing : (was_timed_out was_cancelled : Bool) → Pc K E
  -- the drop of an armed `KillOnDropGuard`
  dropping reaping : K → Outcome E → Pc K E
  ended : Outcome E → Pc K E

-- Where the monitor thread stands.
pub data MonitorPc (K : Type 0) : Type 0 where
  unborn : MonitorPc K
  sleeping expired marking killing : K → MonitorPc K
  over : MonitorPc K

-- Where one call of `cancel` stands.
pub data CancelPc (K : Type 0) : Type 0 where
  uncalled locking holding : CancelPc K
  marking killing : K → CancelPc K
  back : CancelPc K

-- Who calls the platform layer.
pub data Caller : Type 0 where
  runner monitor guard : Caller
  canceller : ℕ → Caller

-- Calls of the platform layer, with what they answered.
pub data Call (K : Type 0) : Type 0 where
  spawned : K → Call K
  waited : K → (os_code : ℤ) → Call K  -- `wait` gave an exit code
  tree_alive : Caller → K → (alive : Bool) → Call K
  kill_escalating : Caller → K → (grace : ℕ) → Call K
  reap_abandoned : K → Call K

-- `struct KillOnDropGuard`
pub record KillOnDropGuard (K : Type 0) : Type 0 where
  pub kill : K
  pub armed : Bool

-- `KillOnDropGuard::new`
unfoldable pub new_guard : {K : Type 0} → K → KillOnDropGuard K
new_guard k = record { kill = k; armed = true }

-- `KillOnDropGuard::disarm`
unfoldable pub disarm : {K : Type 0} → KillOnDropGuard K → KillOnDropGuard K
disarm g = record g { armed = false }

-- `events` and `calls` are newest first.
pub record System (K E : Type 0) : Type 0 where
  pub cancel : CancelHandle K
  pub owner : Option ℕ  -- the call of `cancel` that holds the mutex
  pub timed_out : Bool
  pub stopped : Bool  -- the monitor's channel has its message, or its sender is gone
  pub chunk_tx : Bool  -- `run_impl` still has its own sender of the chunk channel
  pub machine : StateMachine
  pub guard : Option (KillOnDropGuard K)  -- `none` before the spawn
  pub runner : Pc K E
  pub monitor : MonitorPc K
  pub cancellers : ℕ → CancelPc K
  pub events : List Event
  pub calls : List (Call K)

-- What the environment answers in one step. A step reads the fields that it asks for.
pub record Answer (K E : Type 0) : Type 0 where
  pub panics : Bool  -- the event callback, or `thread::spawn`
  pub alive : Bool
  pub spawn : Result (OsHandle K) E
  pub message : Option ChunkMsg  -- `none`: the drain threads' senders are gone
  pub wait : Option (Result ℤ E)  -- `none`: a panic in `wait`

-- The state in which `run_impl` is called, with the given contents of the cancel handle.
unfoldable pub init : {K : Type 0} (E : Type 0) → CancelHandle K → System K E
unfolding new
init E h = record {
  cancel = h;
  owner = none;
  timed_out = false;
  stopped = false;
  chunk_tx = false;
  machine = new;
  guard = none;
  runner = Pc.spawning;
  monitor = MonitorPc.unborn;
  cancellers = λ _. CancelPc.uncalled;
  events = [];
  calls = [];
}
