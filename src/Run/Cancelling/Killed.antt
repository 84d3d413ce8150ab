-- ===== src/Run/Cancelling/Killed.antt =====
-- A run that reports a cancel was killed by one (src/task.rs).
use aer_core.Base.{
  ℕ, String, Bool, true, false, ◌≡◌, ◌≢◌, refl, ◌⊎◌, inl, inr, Option, none, err, arith,
}
use aer_core.Error.{AerError}
use aer_core.Task.{Task, CancelHandle}
use aer_core.Run.System.{returned, Pc, MonitorPc, CancelPc, System, Answer, init}
use aer_core.Run.Runner.{run_from, runner_step}
use aer_core.Run.Monitor.{watch_from, monitor_step}
use aer_core.Run.Canceller.{cancel_from, cancel_step}
use aer_core.Run.Schedule.{Turn, turn_step, Reach, here, next}
use aer_core.Run.Mutex.{Aims}
use aer_core.Run.Mutex.Invariant.{Reach-Inv}
use aer_core.Run.Cancelling.{Shot, is_killing}
use aer_core.Run.Cancelling.Verdict.{ended-Settled}

abbrev pub is_striking : {K E : Type 0} → Pc K E → Bool
is_striking (Pc.killing h) = true
is_striking _ = false

-- `kill_fired` is set, and the kill has been made or is the next step of whoever set it.
abbrev Fired : {K E : Type 0} → System K E → Type 0
Fired s =
    s.cancel.kill_fired ≡ true
    → Shot s.calls
      ⊎ (is_striking s.runner ≡ true)
      ⊎ ((i : ℕ) × (is_killing (s.cancellers i) ≡ true))

is_killing-Aims :
    {K : Type 0} (pc : CancelPc K) (kill : Option K)
    → is_killing pc ≡ true
    → Aims pc kill
    → kill ≢ none
is_killing-Aims (CancelPc.killing k) kill e h n = cc
is_killing-Aims _ kill e h n = cc

module _ {K E : Type 0} (other : String → E) (t : Task) where
  run_from-Fired :
      (a : Answer K E) (pc : Pc K E) (s : System K E)
      → s.runner ≡ pc
      → Fired s
      → Fired (run_from other t true a pc s)
  unfolding run_from
  run_from-Fired a (Pc.marking h) s e f = λ _. inr (inl refl)
  run_from-Fired a (Pc.killing h) s e f = λ _. inl refl
  run_from-Fired a _ s e f = ground arith

  watch_from-Fired :
      (a : Answer K E) (pc : MonitorPc K) (s : System K E) → Fired s → Fired (watch_from a pc s)
  unfolding watch_from
  watch_from-Fired a MonitorPc.unborn s f = f
  watch_from-Fired a _ s f = f

  cancel_from-Fired :
      (a : Answer K E) (j : ℕ) (pc : CancelPc K) (s : System K E)
      → s.cancellers j ≡ pc
      → Fired s
      → Fired (cancel_from a j pc s)
  unfolding cancel_from
  cancel_from-Fired a j CancelPc.uncalled s e f = ground arith
  cancel_from-Fired a j CancelPc.locking s e f = ground arith
  cancel_from-Fired a j CancelPc.holding s e f = ground arith
  cancel_from-Fired a j (CancelPc.marking k) s e f = λ _. inr (inr (j, ground arith))
  cancel_from-Fired a j (CancelPc.killing k) s e f = λ _. inl refl
  cancel_from-Fired a j CancelPc.back s e f = f

  turn_step-Fired :
      (turn : Turn) (a : Answer K E) (s : System K E)
      → Fired s
      → Fired (turn_step other t true turn a s)
  unfolding turn_step runner_step monitor_step cancel_step
  turn_step-Fired Turn.runner a s f = run_from-Fired a s.runner s refl f
  turn_step-Fired Turn.monitor a s f = watch_from-Fired a s.monitor s f
  turn_step-Fired (Turn.canceller j) a s f = cancel_from-Fired a j (s.cancellers j) s refl f

  module _ (h : CancelHandle K) (fresh : h.kill_fired ≡ false) where
    pub Reach-Fired : {s : System K E} → Reach other t true (init E h) s → Fired s
    unfolding init
    Reach-Fired here = λ fired. cc
    Reach-Fired (next {u} r turn a) = turn_step-Fired turn a u (Reach-Fired r)

    -- If the handle was not fired before the run, `Cancelled` is returned after a kill: a call
    -- of `kill_escalating` with the grace period `KILL_GRACE` was made by a call of `cancel` or by
    -- the runner's own test for a cancel, and is complete when the run returns.
    pub ended-Shot :
        (s : System K E)
        → Reach other t true (init E h) s
        → s.runner ≡ Pc.ended (returned (err AerError.cancelled))
        → Shot s.calls
    ended-Shot s r e =
        let (fired, empty) = ended-Settled other t h s (err AerError.cancelled) r e in
        elim (Reach-Fired r fired) [
          | inl shot ↦ shot
          | inr (inl strike) ↦ absurd (not_striking s.runner e strike)
          | inr (inr (i, kills)) ↦ absurd (
              is_killing-Aims (s.cancellers i) s.cancel.kill kills ((Reach-Inv other t h r).aims i)
                empty)
        ]
      where
        not_striking :
            (pc : Pc K E)
            → pc ≡ Pc.ended (returned (err AerError.cancelled))
            → is_striking pc ≢ true
        not_striking pc e strike = ground arith
