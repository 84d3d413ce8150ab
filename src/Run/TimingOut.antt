-- ===== src/Run/TimingOut.antt =====
-- What `TimedOut` says of a run (src/task.rs): the deadline of a configured timeout has passed while
-- the process tree was alive.
use aer_core.Base.{
  ℕ, String, Bool, true, false, ◌≡◌, ◌≢◌, refl, subst, Option, none, List, [], ◌∷◌, ok, err, arith,
}
use aer_core.Error.{AerError}
use aer_core.Task.{Task, CancelHandle}
use aer_core.Run.System.{
  Outcome, returned, panicked, Pc, MonitorPc, CancelPc, Call, Caller, spawned, waited, tree_alive,
  kill_escalating, reap_abandoned, System, Answer, init,
}
use aer_core.Run.Runner.{run_from, runner_step}
use aer_core.Run.Monitor.{watch_from, monitor_step}
use aer_core.Run.Canceller.{cancel_from, cancel_step}
use aer_core.Run.Schedule.{Turn, turn_step, Reach, here, next}

-- The monitor has probed the process tree and found it alive.
abbrev pub FoundAlive : {K : Type 0} → List (Call K) → Type 0
FoundAlive [] = ⊥
FoundAlive (tree_alive Caller.monitor k true ∷ l) = Unit
FoundAlive (tree_alive who k alive ∷ l) = FoundAlive l
FoundAlive (kill_escalating who k grace ∷ l) = FoundAlive l
FoundAlive (spawned k ∷ l) = FoundAlive l
FoundAlive (waited k code ∷ l) = FoundAlive l
FoundAlive (reap_abandoned k ∷ l) = FoundAlive l

-- What the monitor has made sure of.
abbrev Watched : {K : Type 0} → Option ℕ → MonitorPc K → List (Call K) → Type 0
Watched timeout MonitorPc.unborn calls = Unit
Watched timeout (MonitorPc.marking k) calls = (timeout ≢ none) × FoundAlive calls
Watched timeout (MonitorPc.killing k) calls = (timeout ≢ none) × FoundAlive calls
Watched timeout _ calls = timeout ≢ none

-- What the flag stands for.
abbrev Flagged : {K : Type 0} → Option ℕ → Bool → List (Call K) → Type 0
Flagged timeout false calls = Unit
Flagged timeout true calls = (timeout ≢ none) × FoundAlive calls

abbrev Blamed : {E : Type 0} → Outcome E → Bool → Type 0
Blamed (returned (err AerError.timed_out)) flag = flag ≡ true
Blamed (returned (err e)) flag = Unit
Blamed (returned (ok u)) flag = Unit
Blamed panicked flag = Unit

abbrev Read : Bool → Bool → Type 0
Read true flag = flag ≡ true
Read false flag = Unit

-- What `run_impl` has read of the flag at each place.
abbrev Seen : {K E : Type 0} → Pc K E → Bool → Type 0
Seen (Pc.reading_fired code out) flag = Read out flag
Seen (Pc.exiting code out stopped) flag = Read out flag
Seen (Pc.reporting code out stopped) flag = Read out flag
Seen (Pc.finishing out stopped) flag = Read out flag
Seen (Pc.dropping k r) flag = Blamed r flag
Seen (Pc.reaping k r) flag = Blamed r flag
Seen (Pc.ended r) flag = Blamed r flag
Seen _ flag = Unit

record Timed {K E : Type 0} (timeout : Option ℕ) (s : System K E) : Type 0 where
  watched : Watched timeout s.monitor s.calls
  flagged : Flagged timeout s.timed_out s.calls
  seen : Seen s.runner s.timed_out

module _ {K E : Type 0} (other : String → E) (t : Task) (with_cancel : Bool) where
  run_from-Seen :
      (a : Answer K E) (pc : Pc K E) (s : System K E)
      → s.runner ≡ pc
      → Seen pc s.timed_out
      → let s' = run_from other t with_cancel a pc s in Seen s'.runner s'.timed_out
  unfolding run_from
  run_from-Seen a Pc.spawning s e h = ground arith
  run_from-Seen a (Pc.pumping x) s e h = ground arith
  run_from-Seen a _ s e h = ground arith

  run_from-Flagged :
      (a : Answer K E) (pc : Pc K E) (s : System K E)
      → Flagged t.timeout s.timed_out s.calls
      → let s' = run_from other t with_cancel a pc s in Flagged t.timeout s'.timed_out s'.calls
  unfolding run_from
  run_from-Flagged a Pc.spawning s h = ground arith
  run_from-Flagged a (Pc.pumping x) s h = ground arith
  run_from-Flagged a _ s h = ground arith

  run_from-Watched :
      (a : Answer K E) (pc : Pc K E) (s : System K E)
      → Watched t.timeout s.monitor s.calls
      → let s' = run_from other t with_cancel a pc s in Watched t.timeout s'.monitor s'.calls
  unfolding run_from
  run_from-Watched a Pc.spawning s h = ground arith
  run_from-Watched a (Pc.pumping x) s h = ground arith
  run_from-Watched a _ s h = ground arith

  Seen-true : (pc : Pc K E) (flag : Bool) → Seen pc flag → Seen pc true
  Seen-true (Pc.reading_fired code true) flag h = refl
  Seen-true _ flag h = ground arith

  watch_from-Timed :
      (a : Answer K E) (pc : MonitorPc K) (s : System K E)
      → s.monitor ≡ pc
      → Timed t.timeout s
      → Timed t.timeout (watch_from a pc s)
  unfolding watch_from
  watch_from-Timed a MonitorPc.unborn s e h = h
  watch_from-Timed a (MonitorPc.marking k) s e h = record {
    watched = ground (arith, h.watched);
    flagged = ground (arith, h.watched);
    seen = Seen-true s.runner s.timed_out h.seen;
  }
  watch_from-Timed a _ s e h = record {
    watched = ground (arith, h.watched);
    flagged = ground (arith, h.flagged);
    seen = h.seen;
  }

  cancel_from-Timed :
      (a : Answer K E) (i : ℕ) (pc : CancelPc K) (s : System K E)
      → Timed t.timeout s
      → Timed t.timeout (cancel_from a i pc s)
  unfolding cancel_from
  cancel_from-Timed a i CancelPc.uncalled s h = record {
    watched = ground (arith, h.watched);
    flagged = ground (arith, h.flagged);
    seen = ground (arith, h.seen);
  }
  cancel_from-Timed a i _ s h = record {
    watched = ground (arith, h.watched);
    flagged = ground (arith, h.flagged);
    seen = ground (arith, h.seen);
  }

  turn_step-Timed :
      (turn : Turn) (a : Answer K E) (s : System K E)
      → Timed t.timeout s
      → Timed t.timeout (turn_step other t with_cancel turn a s)
  unfolding turn_step runner_step monitor_step cancel_step
  turn_step-Timed Turn.runner a s h = record {
    watched = run_from-Watched a s.runner s h.watched;
    flagged = run_from-Flagged a s.runner s h.flagged;
    seen = run_from-Seen a s.runner s refl h.seen;
  }
  turn_step-Timed Turn.monitor a s h = watch_from-Timed a s.monitor s refl h
  turn_step-Timed (Turn.canceller i) a s h = cancel_from-Timed a i (s.cancellers i) s h

  Reach-Timed :
      (h : CancelHandle K) {s : System K E}
      → Reach other t with_cancel (init E h) s
      → Timed t.timeout s
  unfolding init
  Reach-Timed h here = record { watched = tt; flagged = tt; seen = tt }
  Reach-Timed h (next {u} r turn a) = turn_step-Timed turn a u (Reach-Timed h r)

  pub timed_out-FoundAlive :
      (h : CancelHandle K) (s : System K E)
      → Reach other t with_cancel (init E h) s
      → s.runner ≡ Pc.ended (returned (err AerError.timed_out))
      → (t.timeout ≢ none) × FoundAlive s.calls
  timed_out-FoundAlive h s r e =
      let timed = Reach-Timed h r in
      subst (λ flag. Flagged t.timeout flag s.calls)
        (subst (λ pc. Seen pc s.timed_out) e timed.seen) timed.flagged
