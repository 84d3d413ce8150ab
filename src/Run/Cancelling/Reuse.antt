-- ===== src/Run/Cancelling/Reuse.antt =====
-- What a cancel handle carries from one run to the next (src/task.rs): `run_impl` resets none of its
-- flags, and does not clear the kill handle on every way out.
use aer_core.Base.{ℕ, String, Bool, true, ◌≡◌, ◌≢◌, sym, subst, ◌∙◌, some, ok, err, arith}
use mathlib.Core.Bool.{true≢false}
use aer_core.Error.{AerError}
use aer_core.Task.{Task, CancelHandle}
use aer_core.Run.System.{returned, Pc, MonitorPc, CancelPc, System, Answer, init}
use aer_core.Run.Runner.{run_from, runner_step}
use aer_core.Run.Monitor.{watch_from, monitor_step}
use aer_core.Run.Canceller.{cancel_from, cancel_step}
use aer_core.Run.Schedule.{Turn, turn_step, Reach, here, next}
use aer_core.Run.Mutex.{Slot}
use aer_core.Run.Mutex.Invariant.{Reach-Inv}
use aer_core.Run.Cancelling.Verdict.{ended-Settled}

module _ {K E : Type 0} (other : String → E) (t : Task) where
  run_from-fired :
      (with_cancel : Bool) (a : Answer K E) (pc : Pc K E) (s : System K E)
      → s.cancel.kill_fired ≡ true
      → (run_from other t with_cancel a pc s).cancel.kill_fired ≡ true
  unfolding run_from
  run_from-fired with_cancel a Pc.spawning s h = ground arith
  run_from-fired with_cancel a (Pc.pumping x) s h = ground arith
  run_from-fired with_cancel a _ s h = ground arith

  watch_from-fired :
      (a : Answer K E) (pc : MonitorPc K) (s : System K E)
      → s.cancel.kill_fired ≡ true
      → (watch_from a pc s).cancel.kill_fired ≡ true
  unfolding watch_from
  watch_from-fired a MonitorPc.unborn s h = h
  watch_from-fired a _ s h = h

  cancel_from-fired :
      (a : Answer K E) (i : ℕ) (pc : CancelPc K) (s : System K E)
      → s.cancel.kill_fired ≡ true
      → (cancel_from a i pc s).cancel.kill_fired ≡ true
  unfolding cancel_from
  cancel_from-fired a i CancelPc.uncalled s h = ground arith
  cancel_from-fired a i _ s h = ground arith

  turn_step-fired :
      (turn : Turn) (a : Answer K E) (s : System K E)
      → s.cancel.kill_fired ≡ true
      → (turn_step other t true turn a s).cancel.kill_fired ≡ true
  unfolding turn_step runner_step monitor_step cancel_step
  turn_step-fired Turn.runner a s h = run_from-fired true a s.runner s h
  turn_step-fired Turn.monitor a s h = watch_from-fired a s.monitor s h
  turn_step-fired (Turn.canceller i) a s h = cancel_from-fired a i (s.cancellers i) s h

  module _ (h : CancelHandle K) where
    Reach-fired :
        {s : System K E}
        → h.kill_fired ≡ true
        → Reach other t true (init E h) s
        → s.cancel.kill_fired ≡ true
    unfolding init
    Reach-fired used here = used
    Reach-fired used (next {u} r turn a) = turn_step-fired turn a u (Reach-fired used r)

    -- A cancel handle that has fired in an earlier run spoils every later one: a run that starts
    -- with `kill_fired` set does not return `Ok`, whatever its process does and whatever the
    -- schedule.
    pub reused_handle :
        (s : System K E)
        → h.kill_fired ≡ true
        → Reach other t true (init E h) s
        → s.runner ≢ Pc.ended (returned (ok tt))
    reused_handle s used r e =
        true≢false (sym (Reach-fired used r) ∙ (ended-Settled other t h s (ok tt) r e).0)

    -- A run with a cancel handle that has returned `WaitFailed` has left a kill handle in it: this
    -- is so in every state from the return on.
    pub wait_failed_leaves_kill :
        (s : System K E) (e : E)
        → Reach other t true (init E h) s
        → s.runner ≡ Pc.ended (returned (err (AerError.wait_failed e)))
        → (k : K) × (s.cancel.kill ≡ some k)
    wait_failed_leaves_kill s e r end =
        subst (λ pc. Slot pc s.cancel.kill) end (Reach-Inv other t h r).slot
