-- ===== src/Run/Deadline/Invariant.antt =====
-- The invariants behind what a deadline decides of a run of src/task.rs, and that it does.
use aer_core.Base.{
  ℕ, String, Bool, true, false, ◌≡◌, refl, subst, ◌⊎◌, inl, inr, ◌∙◌, List, err, arith,
}
use aer_core.Error.{AerError}
use aer_core.Task.{Task, CancelHandle}
use aer_core.Run.System.{Outcome, returned, Pc, MonitorPc, CancelPc, Call, System, Answer, init}
use aer_core.Run.Runner.{run_from, runner_step}
use aer_core.Run.Monitor.{watch_from, monitor_step}
use aer_core.Run.Canceller.{cancel_from, cancel_step}
use aer_core.Event.{Event}
use aer_core.Run.Lifecycle.{Ends, ended-Ends}
use aer_core.Run.Frame.{monitor_step-Frame, cancel_step-Frame}
use aer_core.Run.Schedule.{Turn, turn_step, Reach, here, next, Reach-trans}
use aer_core.Run.Deadline.{
  HasActed, HasActed-born, Done-HasActed, MonitorFoundDead, Overtaken, Barred, Born, Done, After,
  Decided, After-Decided, Born-unborn,
}

module _ {K E : Type 0} (other : String → E) (t : Task) (with_cancel : Bool) where
  run_from-Done :
      (a : Answer K E) (pc : Pc K E) (s : System K E)
      → Done s.monitor s.stopped s.timed_out s.calls
      → let s' = run_from other t with_cancel a pc s in
        Done s'.monitor s'.stopped s'.timed_out s'.calls
  unfolding run_from
  run_from-Done a (Pc.pumping x) s h = ground arith
  run_from-Done a _ s h = ground arith

  run_from-After :
      (a : Answer K E) (pc : Pc K E) (s : System K E)
      → s.runner ≡ pc
      → After pc s.stopped
      → let s' = run_from other t with_cancel a pc s in After s'.runner s'.stopped
  unfolding run_from
  run_from-After a (Pc.pumping x) s e h = ground arith
  run_from-After a _ s e h = ground arith

  run_from-Born :
      (a : Answer K E) (pc : Pc K E) (s : System K E)
      → s.runner ≡ pc
      → Born pc s.monitor
      → let s' = run_from other t with_cancel a pc s in Born s'.runner s'.monitor
  unfolding run_from
  run_from-Born a Pc.spawning s e h = ground arith
  run_from-Born a (Pc.pumping x) s e h = ground arith
  run_from-Born a _ s e h = ground arith

  watch_from-unborn :
      (a : Answer K E) (pc : MonitorPc K) (s : System K E)
      → s.monitor ≡ pc
      → pc ≡ MonitorPc.unborn
      → (watch_from a pc s).monitor ≡ MonitorPc.unborn
  unfolding watch_from
  watch_from-unborn a MonitorPc.unborn s e unborn = e
  watch_from-unborn a _ s e unborn = cc

  cancel_from-monitor :
      (a : Answer K E) (i : ℕ) (pc : CancelPc K) (s : System K E)
      → (cancel_from a i pc s).monitor ≡ s.monitor
  unfolding cancel_from
  cancel_from-monitor a i CancelPc.uncalled s = ground arith
  cancel_from-monitor a i _ s = ground arith

  run_from-Decided :
      (a : Answer K E) (pc : Pc K E) (s : System K E)
      → s.runner ≡ pc
      → s.timed_out ≡ true
      → Decided pc
      → Decided (run_from other t with_cancel a pc s).runner
  unfolding run_from
  run_from-Decided a (Pc.pumping x) s e flag h = ground arith
  run_from-Decided a _ s e flag h = ground arith

  run_from-timed_out :
      (a : Answer K E) (pc : Pc K E) (s : System K E)
      → (run_from other t with_cancel a pc s).timed_out ≡ s.timed_out
  unfolding run_from
  run_from-timed_out a Pc.spawning s = ground arith
  run_from-timed_out a (Pc.pumping x) s = ground arith
  run_from-timed_out a _ s = ground arith

  watch_from-Done :
      (a : Answer K E) (pc : MonitorPc K) (s : System K E)
      → s.monitor ≡ pc
      → Done pc s.stopped s.timed_out s.calls
      → let s' = watch_from a pc s in Done s'.monitor s'.stopped s'.timed_out s'.calls
  unfolding watch_from
  watch_from-Done a _ s e h = ground arith

  watch_from-timed_out :
      (a : Answer K E) (pc : MonitorPc K) (s : System K E)
      → s.timed_out ≡ true
      → (watch_from a pc s).timed_out ≡ true
  unfolding watch_from
  watch_from-timed_out a _ s h = ground arith

  cancel_from-Done :
      (a : Answer K E) (i : ℕ) (pc : CancelPc K) (s : System K E)
      → Done s.monitor s.stopped s.timed_out s.calls
      → let s' = cancel_from a i pc s in Done s'.monitor s'.stopped s'.timed_out s'.calls
  unfolding cancel_from
  cancel_from-Done a i CancelPc.uncalled s h = ground arith
  cancel_from-Done a i _ s h = ground arith

  cancel_from-timed_out :
      (a : Answer K E) (i : ℕ) (pc : CancelPc K) (s : System K E)
      → (cancel_from a i pc s).timed_out ≡ s.timed_out
  unfolding cancel_from
  cancel_from-timed_out a i CancelPc.uncalled s = ground arith
  cancel_from-timed_out a i _ s = ground arith

  record Aware (s : System K E) : Type 0 where
    done : Done s.monitor s.stopped s.timed_out s.calls
    after : After s.runner s.stopped
    born : Born s.runner s.monitor

  turn_step-Aware :
      (turn : Turn) (a : Answer K E) (s : System K E)
      → Aware s
      → Aware (turn_step other t with_cancel turn a s)
  unfolding turn_step runner_step monitor_step cancel_step
  turn_step-Aware Turn.runner a s h = record {
    done = run_from-Done a s.runner s h.done;
    after = run_from-After a s.runner s refl h.after;
    born = run_from-Born a s.runner s refl h.born;
  }
  turn_step-Aware Turn.monitor a s h = record {
    done = watch_from-Done a s.monitor s refl h.done;
    after = rw ((monitor_step-Frame s a).runner, (monitor_step-Frame s a).stopped) h.after;
    born =
        rw ((monitor_step-Frame s a).runner)
          (Born-unborn s.runner s.monitor _ (watch_from-unborn a s.monitor s refl) h.born);
  }
  turn_step-Aware (Turn.canceller i) a s h = record {
    done = cancel_from-Done a i (s.cancellers i) s h.done;
    after = rw ((cancel_step-Frame s a i).runner, (cancel_step-Frame s a i).stopped) h.after;
    born = rw ((cancel_step-Frame s a i).runner, cancel_from-monitor a i (s.cancellers i) s) h.born;
  }

  Reach-Aware :
      (h : CancelHandle K) {s : System K E} → Reach other t with_cancel (init E h) s → Aware s
  unfolding init
  Reach-Aware h here = record { done = tt; after = tt; born = refl }
  Reach-Aware h (next {u} r turn a) = turn_step-Aware turn a u (Reach-Aware h r)

  abbrev Late : System K E → Type 0
  Late s = (s.timed_out ≡ true) × Decided s.runner

  turn_step-Late :
      (turn : Turn) (a : Answer K E) (s : System K E)
      → Late s
      → Late (turn_step other t with_cancel turn a s)
  unfolding turn_step runner_step monitor_step cancel_step
  turn_step-Late Turn.runner a s (flag, h) =
      (run_from-timed_out a s.runner s ∙ flag, run_from-Decided a s.runner s refl flag h)
  turn_step-Late Turn.monitor a s (flag, h) =
      (watch_from-timed_out a s.monitor s flag, rw ((monitor_step-Frame s a).runner) h)
  turn_step-Late (Turn.canceller i) a s (flag, h) =
      (cancel_from-timed_out a i (s.cancellers i) s ∙ flag, rw ((cancel_step-Frame s a i).runner) h)

  Reach-Late : {u s : System K E} → Reach other t with_cancel u s → Late u → Late s
  Reach-Late here h = h
  Reach-Late (next {u} r turn a) h = turn_step-Late turn a u (Reach-Late r h)

  barred :
      (h : CancelHandle K) (u s : System K E) (r : Outcome E)
      → Reach other t with_cancel (init E h) u
      → HasActed u.monitor
      → u.stopped ≡ false
      → Reach other t with_cancel u s
      → s.runner ≡ Pc.ended r
      → MonitorFoundDead u.calls ⊎ Barred r
  barred h u s r before acted going after e =
      let aware = Reach-Aware h before in
      let decided =
        After-Decided u.runner u.monitor (HasActed-born u.monitor acted)
          (subst (After u.runner) going aware.after) aware.born in
      elim (Done-HasActed u.monitor u.timed_out u.calls acted
        (subst (λ b. Done u.monitor b u.timed_out u.calls) going aware.done)) [
          | inl dead ↦ inl dead
          | inr flag ↦ inr (subst Decided e (Reach-Late after (flag, decided)).1)
        ]

  Barred-Overtaken :
      (r : Outcome E) (l : List Event) (calls : List (Call K))
      → Ends t.capture_output r l calls
      → Barred r
      → Overtaken r
  Barred-Overtaken (returned (err (AerError.invalid_state_transition from to))) l calls ends h =
      absurd ends
  Barred-Overtaken r l calls ends h = ground arith

  -- No deadline is lost. If the monitor has acted on the deadline before the run tells it to stop, which
  -- is when it stands at its kill or is through, then either it has probed the process tree and
  -- found it dead, or the run, if it ends, returns `TimedOut` or `WaitFailed` or panics: never `Ok` or
  -- `Cancelled`, whatever exit code its process has and whatever cancels come before or after.
  pub deadline_decides :
      (h : CancelHandle K) (u s : System K E) (r : Outcome E)
      → Reach other t with_cancel (init E h) u
      → HasActed u.monitor
      → u.stopped ≡ false
      → Reach other t with_cancel u s
      → s.runner ≡ Pc.ended r
      → MonitorFoundDead u.calls ⊎ Overtaken r
  deadline_decides h u s r before acted going after e =
      elim (barred h u s r before acted going after e) [
        | inl dead ↦ inl dead
        | inr bar ↦ inr (
            Barred-Overtaken r s.events s.calls
              (ended-Ends other t with_cancel h s r (Reach-trans other t with_cancel before after)
                e)
              bar)
      ]
