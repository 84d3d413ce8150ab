-- ===== src/Run/Mutex/Held.antt =====
-- Who holds the mutex of a cancel handle is in its critical section (src/task.rs).
use aer_core.Base.{ℕ, String, Bool, true, false, ◌≡◌, refl, some, arith}
use aer_core.Task.{Task, CancelHandle}
use aer_core.Run.System.{Pc, CancelPc, System, Answer, init}
use aer_core.Run.Runner.{run_from, runner_step}
use aer_core.Run.Monitor.{watch_from, monitor_step}
use aer_core.Run.Canceller.{cancel_from, cancel_step}
use aer_core.Run.Schedule.{Turn, turn_step, Reach, here, next}

-- A call of `cancel` inside its critical section.
abbrev pub is_inside : {K : Type 0} → CancelPc K → Bool
is_inside CancelPc.uncalled = false
is_inside CancelPc.locking = false
is_inside CancelPc.back = false
is_inside _ = true

module _ {K E : Type 0} (other : String → E) (t : Task) (with_cancel : Bool) where
  abbrev pub Held : System K E → Type 0
  Held s = (i : ℕ) → s.owner ≡ some i → is_inside (s.cancellers i) ≡ true

  run_from-Held :
      (a : Answer K E) (pc : Pc K E) (s : System K E)
      → Held s
      → Held (run_from other t with_cancel a pc s)
  unfolding run_from
  run_from-Held a Pc.spawning s h i = ground (arith, h i)
  run_from-Held a (Pc.pumping x) s h i = ground (arith, h i)
  run_from-Held a _ s h i = ground (arith, h i)

  watch_from-Held : (a : Answer K E) (s : System K E) → Held s → Held (monitor_step a s)
  unfolding monitor_step watch_from
  watch_from-Held a s h i = ground (arith, h i)

  cancel_from-Held :
      (a : Answer K E) (j : ℕ) (pc : CancelPc K) (s : System K E)
      → s.cancellers j ≡ pc
      → Held s
      → Held (cancel_from a j pc s)
  unfolding cancel_from
  cancel_from-Held a j CancelPc.uncalled s e h i = ground (arith, h i)
  cancel_from-Held a j _ s e h i = ground (arith, h i)

  turn_step-Held :
      (turn : Turn) (a : Answer K E) (s : System K E)
      → Held s
      → Held (turn_step other t with_cancel turn a s)
  unfolding turn_step runner_step cancel_step
  turn_step-Held Turn.runner a s h = run_from-Held a s.runner s h
  turn_step-Held Turn.monitor a s h = watch_from-Held a s h
  turn_step-Held (Turn.canceller i) a s h = cancel_from-Held a i (s.cancellers i) s refl h

  pub Reach-Held :
      (h : CancelHandle K) {s : System K E} → Reach other t with_cancel (init E h) s → Held s
  unfolding init
  Reach-Held h here = λ i e. cc
  Reach-Held h (next {u} r turn a) = turn_step-Held turn a u (Reach-Held h r)
