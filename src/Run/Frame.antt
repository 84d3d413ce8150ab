-- ===== src/Run/Frame.antt =====
-- What the steps of the monitor and of `cancel` leave alone (src/task.rs).
use aer_core.Base.{ℕ, Bool, Option, ◌≡◌, ◌≢◌, refl, List, ◌∷◌, if_cases, Option_cases}
use aer_core.Task.{CancelHandle, kill_grace}
use aer_core.Run.System.{
  MonitorPc, CancelPc, Call, Caller, tree_alive, kill_escalating, System, Answer,
}
use aer_core.Run.Monitor.{monitor_step, watch_from}
use aer_core.Run.Canceller.{cancel_step, cancel_from}

-- A call that a thread other than the runner can make.
pub data Grown {K : Type 0} (before : List (Call K)) : List (Call K) → Type 0 where
  same : Grown before before
  probed : (who : Caller) (k : K) (alive : Bool) → Grown before (tree_alive who k alive ∷ before)
  killed :
      (who : Caller) (k : K) (grace : ℕ)
      → who ≢ Caller.guard
      → Grown before (kill_escalating who k grace ∷ before)

pub record Frame {K E : Type 0} (s s' : System K E) : Type 0 where
  pub machine : s'.machine ≡ s.machine
  pub guard : s'.guard ≡ s.guard
  pub runner : s'.runner ≡ s.runner
  pub events : s'.events ≡ s.events
  pub stopped : s'.stopped ≡ s.stopped
  pub calls : Grown s.calls s'.calls

module _ {K E : Type 0} (s : System K E) where
  -- A step that changes nothing but what it is given here.
  moved :
      {cancel : CancelHandle K} {owner : Option ℕ} {timed_out : Bool} {monitor : MonitorPc K}
      {cancellers : ℕ → CancelPc K} {calls : List (Call K)}
      → Grown s.calls calls
      → Frame s (record s {
        cancel = cancel;
        owner = owner;
        timed_out = timed_out;
        monitor = monitor;
        cancellers = cancellers;
        calls = calls;
      })
  moved g = record {
    machine = refl;
    guard = refl;
    runner = refl;
    events = refl;
    stopped = refl;
    calls = g;
  }

  module _ (a : Answer K E) where
    watch_from-Frame : (pc : MonitorPc K) → Frame s (watch_from a pc s)
    unfolding watch_from
    watch_from-Frame MonitorPc.unborn = moved same
    watch_from-Frame (MonitorPc.sleeping k) = moved same
    watch_from-Frame (MonitorPc.expired k) = moved (probed Caller.monitor k a.alive)
    watch_from-Frame (MonitorPc.marking k) = moved same
    watch_from-Frame (MonitorPc.killing k) = moved (killed Caller.monitor k kill_grace (λ e. cc))
    watch_from-Frame MonitorPc.over = moved same

    pub monitor_step-Frame : Frame s (monitor_step a s)
    unfolding monitor_step
    monitor_step-Frame = watch_from-Frame s.monitor

    module _ (i : ℕ) where
      cancel_from-Frame : (pc : CancelPc K) → Frame s (cancel_from a i pc s)
      unfolding cancel_from
      cancel_from-Frame CancelPc.uncalled =
          if_cases (Frame s) s.cancel.cancelled (moved same) (moved same)
      cancel_from-Frame CancelPc.locking =
          Option_cases (Frame s) s.owner
            (if_cases (Frame s) s.cancel.poisoned (moved same) (moved same)) (λ _. moved same)
      cancel_from-Frame CancelPc.holding = Option_cases (Frame s) s.cancel.kill (moved same) λ k.
          if_cases (Frame s) a.alive (moved (probed (Caller.canceller i) k a.alive))
            (moved (probed (Caller.canceller i) k a.alive))
      cancel_from-Frame (CancelPc.marking k) = moved same
      cancel_from-Frame (CancelPc.killing k) =
          moved (killed (Caller.canceller i) k kill_grace (λ e. cc))
      cancel_from-Frame CancelPc.back = moved same

      pub cancel_step-Frame : Frame s (cancel_step a i s)
      unfolding cancel_step
      cancel_step-Frame = cancel_from-Frame (s.cancellers i)
