-- ===== src/Run/Deadline.antt =====
-- A deadline that passes while the run of src/task.rs still goes on decides how the run ends.
pub mod Invariant
use aer_core.Base.{
  ℕ, String, Bool, true, false, ◌≡◌, ◌≢◌, inl, inr, refl, sym, subst, ◌⊎◌, inl, inr, ◌∙◌, List, [],
  ◌∷◌, ok, err, arith, Option, none, some,
}
use aer_core.Error.{AerError}
use aer_core.Task.{Task, CancelHandle}
use aer_core.Run.System.{
  Outcome, returned, panicked, Pc, MonitorPc, CancelPc, Call, Caller, spawned, waited, tree_alive,
  kill_escalating, reap_abandoned, System, Answer, init, KillOnDropGuard,
}
use aer_core.Run.Runner.{run_from, runner_step, drop_guard}
use aer_core.Run.Monitor.{watch_from, monitor_step}
use aer_core.Run.Canceller.{cancel_from, cancel_step}
use aer_core.Event.{Event}
use aer_core.Run.Lifecycle.{Ends, ended-Ends}
use aer_core.Run.Frame.{monitor_step-Frame, cancel_step-Frame}
use aer_core.Run.Schedule.{Turn, turn_step, Reach, here, next}

-- The monitor has probed the process tree and found it dead.
abbrev pub MonitorFoundDead : {K : Type 0} → List (Call K) → Type 0
MonitorFoundDead [] = ⊥
MonitorFoundDead (tree_alive Caller.monitor k false ∷ l) = Unit
MonitorFoundDead (tree_alive who k alive ∷ l) = MonitorFoundDead l
MonitorFoundDead (kill_escalating who k grace ∷ l) = MonitorFoundDead l
MonitorFoundDead (spawned k ∷ l) = MonitorFoundDead l
MonitorFoundDead (waited k code ∷ l) = MonitorFoundDead l
MonitorFoundDead (reap_abandoned k ∷ l) = MonitorFoundDead l

-- `TimedOut`, `WaitFailed` or a panic.
abbrev pub Overtaken : {E : Type 0} → Outcome E → Type 0
Overtaken (returned (err AerError.timed_out)) = Unit
Overtaken (returned (err (AerError.wait_failed e))) = Unit
Overtaken panicked = Unit
Overtaken r = ⊥

-- The same, before errors of the state machine are excluded.
abbrev pub Barred : {E : Type 0} → Outcome E → Type 0
Barred (returned (err (AerError.invalid_state_transition from to))) = Unit
Barred r = Overtaken r

abbrev pub IsSpawnFailed : {E : Type 0} → Outcome E → Type 0
IsSpawnFailed (returned (err (AerError.spawn_failed e))) = Unit
IsSpawnFailed r = ⊥

-- There is no monitor where no process was spawned.
abbrev pub Born : {K E : Type 0} → Pc K E → MonitorPc K → Type 0
Born Pc.spawning m = m ≡ MonitorPc.unborn
Born (Pc.dropping k r) m = IsSpawnFailed r → m ≡ MonitorPc.unborn
Born (Pc.reaping k r) m = IsSpawnFailed r → m ≡ MonitorPc.unborn
Born (Pc.ended r) m = IsSpawnFailed r → m ≡ MonitorPc.unborn
Born pc m = Unit

-- Why the monitor is where it is.
abbrev pub Done : {K : Type 0} → MonitorPc K → (stopped timed_out : Bool) → List (Call K) → Type 0
Done (MonitorPc.killing k) stopped timed_out calls = timed_out ≡ true
Done MonitorPc.over stopped timed_out calls =
    (stopped ≡ true) ⊎ (timed_out ≡ true) ⊎ MonitorFoundDead calls
Done pc stopped timed_out calls = Unit

-- From where on the monitor is told to stop.
abbrev pub After : {K E : Type 0} → Pc K E → (stopped : Bool) → Type 0
After (Pc.reading_timed_out code) stopped = stopped ≡ true
After (Pc.reading_fired code out) stopped = stopped ≡ true
After (Pc.exiting code out was_cancelled) stopped = stopped ≡ true
After (Pc.reporting code out was_cancelled) stopped = stopped ≡ true
After (Pc.finishing out was_cancelled) stopped = stopped ≡ true
After (Pc.dropping k r) stopped = stopped ≡ true
After (Pc.reaping k r) stopped = stopped ≡ true
After (Pc.ended r) stopped = (stopped ≡ true) ⊎ IsSpawnFailed r
After pc stopped = Unit

-- What follows from the flag at each place of `run_impl`.
abbrev pub Decided : {K E : Type 0} → Pc K E → Type 0
Decided Pc.spawning = ⊥
Decided (Pc.reading_fired code out) = out ≡ true
Decided (Pc.exiting code out was_cancelled) = out ≡ true
Decided (Pc.reporting code out was_cancelled) = out ≡ true
Decided (Pc.finishing out was_cancelled) = out ≡ true
Decided (Pc.dropping k r) = Barred r
Decided (Pc.reaping k r) = Barred r
Decided (Pc.ended r) = Barred r
Decided pc = Unit

-- The monitor is behind its decision: at its kill, or through.
abbrev pub HasActed : {K : Type 0} → MonitorPc K → Type 0
HasActed (MonitorPc.killing k) = Unit
HasActed MonitorPc.over = Unit
HasActed m = ⊥

pub HasActed-born : {K : Type 0} (m : MonitorPc K) → HasActed m → m ≢ MonitorPc.unborn
HasActed-born MonitorPc.unborn h e = h
HasActed-born _ h e = cc

pub After-Decided :
    {K E : Type 0} (pc : Pc K E) (m : MonitorPc K)
    → m ≢ MonitorPc.unborn
    → After pc false
    → Born pc m
    → Decided pc
After-Decided (Pc.ended r) m alive h born = ground (arith, alive)
After-Decided _ m alive h born = ground (arith, alive)

-- Why the monitor decided as it did.
pub Done-HasActed :
    {K : Type 0} (m : MonitorPc K) (timed_out : Bool) (calls : List (Call K))
    → HasActed m
    → Done m false timed_out calls
    → MonitorFoundDead calls ⊎ (timed_out ≡ true)
Done-HasActed (MonitorPc.killing k) timed_out calls acted h = inr h
Done-HasActed MonitorPc.over timed_out calls acted (inl stopped) = cc
Done-HasActed MonitorPc.over timed_out calls acted (inr (inl flag)) = inr flag
Done-HasActed MonitorPc.over timed_out calls acted (inr (inr dead)) = inl dead
Done-HasActed _ timed_out calls acted h = absurd acted

pub Born-unborn :
    {K E : Type 0} (pc : Pc K E) (m m' : MonitorPc K)
    → (m ≡ MonitorPc.unborn → m' ≡ MonitorPc.unborn)
    → Born pc m
    → Born pc m'
Born-unborn Pc.spawning m m' f h = f h
Born-unborn (Pc.dropping k r) m m' f h = λ failed. f (h failed)
Born-unborn (Pc.reaping k r) m m' f h = λ failed. f (h failed)
Born-unborn (Pc.ended r) m m' f h = λ failed. f (h failed)
Born-unborn _ m m' f h = tt
