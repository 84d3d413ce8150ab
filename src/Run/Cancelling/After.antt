-- ===== src/Run/Cancelling/After.antt =====
-- Calls of `cancel` when the run of src/task.rs is over: "cancel() is now a no-op".
use aer_core.Base.{
  ℕ, String, Bool, true, ◌≡◌, refl, subst, Option, none, List, ◌∷◌, Result, ok, err, ◌∙◌, arith,
}
use aer_core.Error.{AerError}
use aer_core.Task.{Task, CancelHandle}
use aer_core.Run.System.{
  returned, Pc, MonitorPc, CancelPc, Call, Caller, tree_alive, kill_escalating, System, Answer,
  init,
}
use aer_core.Run.Runner.{run_from, runner_step}
use aer_core.Run.Monitor.{watch_from, monitor_step}
use aer_core.Run.Canceller.{cancel_from, cancel_step}
use aer_core.Run.Frame.{monitor_step-Frame, cancel_step-Frame}
use aer_core.Run.Schedule.{Turn, turn_step, Reach, here, next, Reach-trans}
use aer_core.Run.Mutex.{Aims, Left, Slot, Inv}
use aer_core.Run.Mutex.Invariant.{Reach-Inv}

-- All calls that were added are the monitor's.
pub data OnlyMonitor {K : Type 0} (before : List (Call K)) : List (Call K) → Type 0 where
  unchanged : OnlyMonitor before before
  probed :
      {l : List (Call K)} (k : K) (alive : Bool)
      → OnlyMonitor before l
      → OnlyMonitor before (tree_alive Caller.monitor k alive ∷ l)
  killed :
      {l : List (Call K)} (k : K) (grace : ℕ)
      → OnlyMonitor before l
      → OnlyMonitor before (kill_escalating Caller.monitor k grace ∷ l)

-- The run has returned with an exit code: `Ok`, `TimedOut` or `Cancelled`.
abbrev pub HasExitCode : {E : Type 0} → Result (Unit {0}) (AerError E) → Type 0
HasExitCode (ok u) = Unit
HasExitCode (err AerError.timed_out) = Unit
HasExitCode (err AerError.cancelled) = Unit
HasExitCode (err e) = ⊥

OnlyMonitor-trans :
    {K : Type 0} {before between after : List (Call K)}
    → OnlyMonitor before between
    → OnlyMonitor between after
    → OnlyMonitor before after
OnlyMonitor-trans h unchanged = h
OnlyMonitor-trans h (probed k alive more) = probed k alive (OnlyMonitor-trans h more)
OnlyMonitor-trans h (killed k grace more) = killed k grace (OnlyMonitor-trans h more)

module _ {K E : Type 0} (other : String → E) (t : Task) where
  Left-none :
      (res : Result (Unit {0}) (AerError E)) (kill : Option K)
      → HasExitCode res
      → Left (returned res) kill
      → kill ≡ none
  Left-none (ok u) kill exited h = h
  Left-none (err AerError.timed_out) kill exited h = h
  Left-none (err AerError.cancelled) kill exited h = h
  Left-none (err _) kill exited h = absurd exited

  watch_from-OnlyMonitor :
      (a : Answer K E) (pc : MonitorPc K) (s : System K E)
      → OnlyMonitor s.calls (watch_from a pc s).calls
  unfolding watch_from
  watch_from-OnlyMonitor a MonitorPc.unborn s = unchanged
  watch_from-OnlyMonitor a (MonitorPc.expired k) s = probed k a.alive unchanged
  watch_from-OnlyMonitor a (MonitorPc.killing k) s = killed k _ unchanged
  watch_from-OnlyMonitor a _ s = unchanged

  cancel_from-calls :
      (a : Answer K E) (i : ℕ) (pc : CancelPc K) (s : System K E)
      → s.cancel.kill ≡ none
      → Aims pc s.cancel.kill
      → (cancel_from a i pc s).calls ≡ s.calls
  unfolding cancel_from
  cancel_from-calls a i CancelPc.uncalled s free aims = ground arith
  cancel_from-calls a i _ s free aims = ground arith

  module _ (res : Result (Unit {0}) (AerError E)) where
    abbrev Over : System K E → Type 0
    Over s = s.runner ≡ Pc.ended (returned res)

    turn_step-Over :
        (turn : Turn) (a : Answer K E) (s : System K E)
        → Over s
        → Over (turn_step other t true turn a s)
    unfolding turn_step runner_step run_from
    turn_step-Over Turn.runner a s e = rw e refl
    turn_step-Over Turn.monitor a s e = (monitor_step-Frame s a).runner ∙ e
    turn_step-Over (Turn.canceller i) a s e = (cancel_step-Frame s a i).runner ∙ e

    turn_step-OnlyMonitor :
        (turn : Turn) (a : Answer K E) (s : System K E)
        → Over s
        → Inv s
        → s.cancel.kill ≡ none
        → OnlyMonitor s.calls (turn_step other t true turn a s).calls
    unfolding turn_step runner_step monitor_step cancel_step run_from
    turn_step-OnlyMonitor Turn.runner a s e inv free = rw e unchanged
    turn_step-OnlyMonitor Turn.monitor a s e inv free = watch_from-OnlyMonitor a s.monitor s
    turn_step-OnlyMonitor (Turn.canceller i) a s e inv free =
        rw (cancel_from-calls a i (s.cancellers i) s free (inv.aims i)) unchanged

    Reach-Over : {u s : System K E} → Reach other t true u s → Over u → Over s
    Reach-Over here e = e
    Reach-Over (next {u} r turn a) e = turn_step-Over turn a u (Reach-Over r e)

    -- After a run with a cancel handle has returned `Ok`, `TimedOut` or `Cancelled`, cancels are without effect on
    -- the platform: no call of `cancel`, whether it began before or after, makes any call of the platform
    -- layer from then on. All that is added is the monitor's.
    pub cancel_is_over :
        (h : CancelHandle K) (u s : System K E)
        → HasExitCode res
        → Reach other t true (init E h) u
        → u.runner ≡ Pc.ended (returned res)
        → Reach other t true u s
        → OnlyMonitor u.calls s.calls
    cancel_is_over h u s exited before e here = unchanged
    cancel_is_over h u s exited before e (next {u = v} r turn a) =
        let inv = Reach-Inv other t h (Reach-trans other t true before r) in
        let over = Reach-Over r e in
        OnlyMonitor-trans (cancel_is_over h u v exited before e r) (
          turn_step-OnlyMonitor turn a v over inv (
            Left-none res v.cancel.kill exited (subst (λ pc. Slot pc v.cancel.kill) over inv.slot)))
