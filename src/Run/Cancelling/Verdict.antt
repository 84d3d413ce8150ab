-- ===== src/Run/Cancelling/Verdict.antt =====
-- The verdict on a cancel is final: once `run_impl` has read `kill_fired`, no call of `cancel`
-- changes it (src/task.rs).
use aer_core.Base.{
  ℕ, String, Bool, true, false, ◌≡◌, refl, sym, subst, subst₂, Option, some, Result, ok, err, arith,
}
use aer_core.Error.{AerError}
use aer_core.Task.{Task, CancelHandle}
use aer_core.Run.System.{Outcome, returned, panicked, Pc, MonitorPc, CancelPc, System, Answer, init}
use aer_core.Run.Runner.{run_from, runner_step}
use aer_core.Run.Monitor.{watch_from, monitor_step}
use aer_core.Run.Canceller.{cancel_from, cancel_step}
use aer_core.Run.Schedule.{Turn, turn_step, Reach, here, next}
use aer_core.Run.Frame.{cancel_step-Frame, monitor_step-Frame}
use aer_core.Run.Mutex.{Slot, Left, Aims, Inv}
use aer_core.Run.Mutex.Invariant.{Reach-Inv}
use aer_core.Run.Cancelling.{Settled}

abbrev Final : {E : Type 0} → Outcome E → Bool → Type 0
Final (returned (ok u)) fired = fired ≡ false
Final (returned (err AerError.cancelled)) fired = fired ≡ true
Final (returned (err e)) fired = Unit
Final panicked fired = Unit

-- What `run_impl` has read of `kill_fired` at each place.
abbrev Judged : {K E : Type 0} → Pc K E → Bool → Type 0
Judged (Pc.exiting code out stopped) fired = fired ≡ stopped
Judged (Pc.reporting code out stopped) fired = fired ≡ stopped
Judged (Pc.finishing out stopped) fired = fired ≡ stopped
Judged (Pc.dropping k r) fired = Final r fired
Judged (Pc.reaping k r) fired = Final r fired
Judged (Pc.ended r) fired = Final r fired
Judged _ fired = Unit

abbrev is_marking : {K : Type 0} → CancelPc K → Bool
is_marking (CancelPc.marking k) = true
is_marking _ = false

-- While the handle is still wired, nothing has been read.
Judged-wired :
    {K E : Type 0} (pc : Pc K E) {kill : Option K} {k : K} (fired fired' : Bool)
    → Slot pc kill
    → kill ≡ some k
    → Judged pc fired
    → Judged pc fired'
Judged-wired (Pc.exiting code out stopped) f f' h e j = cc
Judged-wired _ f f' h e j = ground arith

module _ {K E : Type 0} (other : String → E) (t : Task) where
  run_from-Judged :
      (a : Answer K E) (pc : Pc K E) (s : System K E)
      → s.runner ≡ pc
      → Judged pc s.cancel.kill_fired
      → let s' = run_from other t true a pc s in Judged s'.runner s'.cancel.kill_fired
  unfolding run_from
  run_from-Judged a Pc.spawning s e h = ground arith
  run_from-Judged a (Pc.pumping x) s e h = ground arith
  run_from-Judged a _ s e h = ground arith

  watch_from-cancel :
      (a : Answer K E) (pc : MonitorPc K) (s : System K E) → (watch_from a pc s).cancel ≡ s.cancel
  unfolding watch_from
  watch_from-cancel a MonitorPc.unborn s = refl
  watch_from-cancel a _ s = refl

  cancel_from-kill_fired :
      (a : Answer K E) (i : ℕ) (pc : CancelPc K) (s : System K E)
      → is_marking pc ≡ false
      → (cancel_from a i pc s).cancel.kill_fired ≡ s.cancel.kill_fired
  unfolding cancel_from
  cancel_from-kill_fired a i (CancelPc.marking k) s e = cc
  cancel_from-kill_fired a i _ s e = ground arith

  cancel_from-Judged :
      (a : Answer K E) (i : ℕ) (pc : CancelPc K) (s : System K E)
      → s.cancellers i ≡ pc
      → Inv s
      → Judged s.runner s.cancel.kill_fired
      → Judged s.runner (cancel_from a i pc s).cancel.kill_fired
  cancel_from-Judged a i (CancelPc.marking k) s e v h =
      Judged-wired s.runner s.cancel.kill_fired _ v.slot
        (subst (λ pc. Aims pc s.cancel.kill) e (v.aims i)) h
  cancel_from-Judged a i pc s e v h =
      subst (Judged s.runner) (sym (cancel_from-kill_fired a i pc s refl)) h

  turn_step-Judged :
      (turn : Turn) (a : Answer K E) (s : System K E)
      → Inv s
      → Judged s.runner s.cancel.kill_fired
      → let s' = turn_step other t true turn a s in Judged s'.runner s'.cancel.kill_fired
  unfolding turn_step runner_step monitor_step cancel_step
  turn_step-Judged Turn.runner a s v h = run_from-Judged a s.runner s refl h
  turn_step-Judged Turn.monitor a s v h =
      subst₂ (λ pc (c : CancelHandle K). Judged pc c.kill_fired)
        (sym (monitor_step-Frame s a).runner) (sym (watch_from-cancel a s.monitor s)) h
  turn_step-Judged (Turn.canceller i) a s v h =
      subst (λ pc. Judged pc (cancel_step a i s).cancel.kill_fired)
        (sym (cancel_step-Frame s a i).runner) (cancel_from-Judged a i (s.cancellers i) s refl v h)

  Reach-Judged :
      (h : CancelHandle K) {s : System K E}
      → Reach other t true (init E h) s
      → Judged s.runner s.cancel.kill_fired
  unfolding init
  Reach-Judged h here = tt
  Reach-Judged h (next {u} r turn a) =
      turn_step-Judged turn a u (Reach-Inv other t h r) (Reach-Judged h r)

  Settled-of :
      (res : Result (Unit {0}) (AerError E)) (fired : Bool) (kill : Option K)
      → Final (returned res) fired
      → Left (returned res) kill
      → Settled res fired kill
  Settled-of (ok u) fired kill f l = (f, l)
  Settled-of (err AerError.timed_out) fired kill f l = l
  Settled-of (err AerError.cancelled) fired kill f l = (f, l)
  Settled-of (err _) fired kill f l = tt

  -- A run with a cancel handle that has returned `Ok` leaves `kill_fired` false, one that returned
  -- `Cancelled` leaves it true, and after these and after `TimedOut` the handle holds no process.
  -- This is so in every state from the return on, whatever calls of `cancel` go on or begin then.
  pub ended-Settled :
      (h : CancelHandle K) (s : System K E) (res : Result (Unit {0}) (AerError E))
      → Reach other t true (init E h) s
      → s.runner ≡ Pc.ended (returned res)
      → Settled res s.cancel.kill_fired s.cancel.kill
  ended-Settled h s res r e =
      Settled-of res s.cancel.kill_fired s.cancel.kill
        (subst (λ pc. Judged pc s.cancel.kill_fired) e (Reach-Judged h r))
        (subst (λ pc. Slot pc s.cancel.kill) e (Reach-Inv other t h r).slot)
