-- ===== src/Run/Cancelling/Without.antt =====
-- `Task::run` of src/task.rs, which is `run_impl` without a cancel handle.
use aer_core.Base.{String, Bool, true, false, ◌≡◌, refl, subst, sym, Option, none, some, err, arith}
use aer_core.Error.{AerError}
use aer_core.Task.{Task, CancelHandle}
use aer_core.Run.System.{Outcome, returned, Pc, KillOnDropGuard, System, Answer, init}
use aer_core.Run.Runner.{run_from, runner_step, drop_guard, run_result}
use aer_core.Run.Frame.{monitor_step-Frame, cancel_step-Frame}
use aer_core.Run.Schedule.{Turn, turn_step, Reach, here, next}

-- Any outcome but `Cancelled`.
abbrev pub Uncancelled : {E : Type 0} → Outcome E → Type 0
Uncancelled (returned (err AerError.cancelled)) = ⊥
Uncancelled r = Unit

abbrev At : {K E : Type 0} → Pc K E → Type 0
At (Pc.exiting code was_timed_out was_cancelled) = was_cancelled ≡ false
At (Pc.reporting code was_timed_out was_cancelled) = was_cancelled ≡ false
At (Pc.finishing was_timed_out was_cancelled) = was_cancelled ≡ false
At (Pc.dropping k r) = Uncancelled r
At (Pc.reaping k r) = Uncancelled r
At (Pc.ended r) = Uncancelled r
At pc = Unit

run_result-Uncancelled :
    (E : Type 0) (out : Bool) → Uncancelled {E = E} (returned (run_result out false))
unfolding run_result
run_result-Uncancelled E true = tt
run_result-Uncancelled E false = tt

module _ {K E : Type 0} (other : String → E) (t : Task) where
  drop_guard-At :
      (g : Option (KillOnDropGuard K)) (r : Outcome E) → Uncancelled r → At (drop_guard g r)
  drop_guard-At none r h = h
  drop_guard-At (some g) r h = ground arith

  run_from-At :
      (a : Answer K E) (pc : Pc K E) (s : System K E)
      → s.runner ≡ pc
      → At pc
      → At (run_from other t false a pc s).runner
  unfolding run_from
  run_from-At a (Pc.finishing out stopped) s e h =
      drop_guard-At s.guard (returned (run_result out stopped)) (
        subst (λ b. Uncancelled {E = E} (returned (run_result out b))) (sym h)
          (run_result-Uncancelled E out))
  run_from-At a _ s e h = ground arith

  turn_step-At :
      (turn : Turn) (a : Answer K E) (s : System K E)
      → At s.runner
      → At (turn_step other t false turn a s).runner
  unfolding turn_step runner_step
  turn_step-At Turn.runner a s h = run_from-At a s.runner s refl h
  turn_step-At Turn.monitor a s h = rw ((monitor_step-Frame s a).runner) h
  turn_step-At (Turn.canceller i) a s h = rw ((cancel_step-Frame s a i).runner) h

  -- A run without a cancel handle never ends `Cancelled`.
  pub ended-Uncancelled :
      (h : CancelHandle K) (s : System K E) (r : Outcome E)
      → Reach other t false (init E h) s
      → s.runner ≡ Pc.ended r
      → Uncancelled r
  unfolding init
  ended-Uncancelled h s r reach e = subst At e (go reach)
    where
      go : {s : System K E} → Reach other t false (init E h) s → At s.runner
      go here = tt
      go (next {u} before turn a) = turn_step-At turn a u (go before)
