-- ===== src/Run/Cancelling/Once.antt =====
-- Only the first call of `CancelHandle::cancel` acts (src/task.rs).
use aer_core.Base.{ℕ, String, Bool, true, ◌≡◌, refl, subst₂, sym, arith}
use aer_core.Task.{Task, CancelHandle}
use aer_core.Run.System.{Pc, MonitorPc, CancelPc, System, Answer, init}
use aer_core.Run.Runner.{run_from, runner_step}
use aer_core.Run.Monitor.{watch_from, monitor_step}
use aer_core.Run.Canceller.{cancel_from, cancel_step}
use aer_core.Run.Schedule.{Turn, turn_step, Reach, here, next}
use aer_core.Run.Cancelling.{is_busy}

-- A call at work has set the flag, and no two calls are at work.
record Single {K : Type 0} (cancellers : ℕ → CancelPc K) (cancelled : Bool) : Type 0 where
  flagged : (i : ℕ) → is_busy (cancellers i) ≡ true → cancelled ≡ true
  alone : (i j : ℕ) → is_busy (cancellers i) ≡ true → is_busy (cancellers j) ≡ true → i ≡ j

module _ {K E : Type 0} (other : String → E) (t : Task) (with_cancel : Bool) where
  run_from-cancelled :
      (a : Answer K E) (pc : Pc K E) (s : System K E)
      → let s' = run_from other t with_cancel a pc s in
        (s'.cancellers ≡ s.cancellers) × (s'.cancel.cancelled ≡ s.cancel.cancelled)
  unfolding run_from
  run_from-cancelled a Pc.spawning s = ground arith
  run_from-cancelled a (Pc.pumping x) s = ground arith
  run_from-cancelled a _ s = ground arith

  watch_from-cancelled :
      (a : Answer K E) (pc : MonitorPc K) (s : System K E)
      → let s' = watch_from a pc s in
        (s'.cancellers ≡ s.cancellers) × (s'.cancel.cancelled ≡ s.cancel.cancelled)
  unfolding watch_from
  watch_from-cancelled a MonitorPc.unborn s = (refl, refl)
  watch_from-cancelled a _ s = (refl, refl)

  cancel_from-Single :
      (a : Answer K E) (k : ℕ) (pc : CancelPc K) (s : System K E)
      → s.cancellers k ≡ pc
      → Single s.cancellers s.cancel.cancelled
      → let s' = cancel_from a k pc s in Single s'.cancellers s'.cancel.cancelled
  unfolding cancel_from
  cancel_from-Single a k CancelPc.uncalled s e h = record {
    flagged = λ i. ground (arith, h.flagged i);
    alone = λ i j. ground (arith, h.flagged i, h.flagged j, h.alone i j);
  }
  cancel_from-Single a k _ s e h = record {
    flagged = λ i. ground (arith, h.flagged i, h.flagged k);
    alone = λ i j. ground (arith, h.alone i j, h.alone i k, h.alone k j);
  }

  turn_step-Single :
      (turn : Turn) (a : Answer K E) (s : System K E)
      → Single s.cancellers s.cancel.cancelled
      → let s' = turn_step other t with_cancel turn a s in Single s'.cancellers s'.cancel.cancelled
  unfolding turn_step runner_step monitor_step cancel_step
  turn_step-Single Turn.runner a s h =
      let (c, f) = run_from-cancelled a s.runner s in subst₂ Single (sym c) (sym f) h
  turn_step-Single Turn.monitor a s h =
      let (c, f) = watch_from-cancelled a s.monitor s in subst₂ Single (sym c) (sym f) h
  turn_step-Single (Turn.canceller k) a s h = cancel_from-Single a k (s.cancellers k) s refl h

  Reach-Single :
      (h : CancelHandle K) {s : System K E}
      → Reach other t with_cancel (init E h) s
      → Single s.cancellers s.cancel.cancelled
  unfolding init
  Reach-Single h here = record { flagged = λ i e. cc; alone = λ i j e. cc }
  Reach-Single h (next {u} r turn a) = turn_step-Single turn a u (Reach-Single h r)

  -- At no moment of a run are two calls of `cancel` at work: of all calls that were made on the
  -- handle, one at most is past its first test and has not returned.
  cancels_alone :
      (h : CancelHandle K) (s : System K E) (i j : ℕ)
      → Reach other t with_cancel (init E h) s
      → is_busy (s.cancellers i) ≡ true
      → is_busy (s.cancellers j) ≡ true
      → i ≡ j
  cancels_alone h s i j r = (Reach-Single h r).alone i j
