-- ===== src/Run/Ownership/Invariant.antt =====
-- A run of src/task.rs touches no process but the one that it has started.
use aer_core.Base.{ℕ, String, Bool, ◌≡◌, refl, none, List, arith}
use aer_core.Task.{Task, CancelHandle}
use aer_core.Run.System.{Pc, MonitorPc, CancelPc, Call, System, Answer, init}
use aer_core.Run.Runner.{run_from, runner_step}
use aer_core.Run.Monitor.{watch_from, monitor_step}
use aer_core.Run.Canceller.{cancel_from, cancel_step}
use aer_core.Run.Schedule.{Turn, turn_step, Reach, here, next}
use aer_core.Run.Frame.{Grown, same, probed, killed, cancel_step-Frame, monitor_step-Frame}
use aer_core.Run.Cleanup.{Spawned}
use aer_core.Run.Cleanup.Invariant.{Guarded, Reach-Inv}
use aer_core.Run.Ownership.{OnlyOn, Starts, Unspawned-Starts, Spawned-Starts, On}

module _ {K E : Type 0} (k : K) (other : String → E) (t : Task) (with_cancel : Bool) where
  run_from-On :
      (a : Answer K E) (pc : Pc K E) (s : System K E)
      → s.runner ≡ pc
      → On k s
      → Starts k (run_from other t with_cancel a pc s).calls
      → On k (run_from other t with_cancel a pc s)
  unfolding run_from
  run_from-On a Pc.spawning s e h m = record {
    runner = ground arith;
    guard = ground arith;
    kill = ground arith;
    monitor = ground arith;
    cancellers = λ i. ground (arith, h.cancellers i);
    calls = ground arith;
  }
  run_from-On a (Pc.pumping x) s e h m = record {
    runner = ground arith;
    guard = ground arith;
    kill = ground arith;
    monitor = ground arith;
    cancellers = λ i. ground (arith, h.cancellers i);
    calls = ground arith;
  }
  run_from-On a _ s e h m = record {
    runner = ground arith;
    guard = ground arith;
    kill = ground arith;
    monitor = ground arith;
    cancellers = λ i. ground (arith, h.cancellers i);
    calls = ground arith;
  }

  watch_from-On :
      (a : Answer K E) (pc : MonitorPc K) (s : System K E)
      → s.monitor ≡ pc
      → On k s
      → On k (watch_from a pc s)
  unfolding watch_from
  watch_from-On a MonitorPc.unborn s e h = h
  watch_from-On a _ s e h = record {
    runner = h.runner;
    guard = h.guard;
    kill = h.kill;
    monitor = ground arith;
    cancellers = h.cancellers;
    calls = ground arith;
  }

  cancel_from-On :
      (a : Answer K E) (i : ℕ) (pc : CancelPc K) (s : System K E)
      → s.cancellers i ≡ pc
      → On k s
      → On k (cancel_from a i pc s)
  unfolding cancel_from
  cancel_from-On a i CancelPc.uncalled s e h = record {
    runner = ground arith;
    guard = ground arith;
    kill = ground arith;
    monitor = ground arith;
    cancellers = λ j. ground (arith, h.cancellers j);
    calls = ground arith;
  }
  cancel_from-On a i _ s e h = record {
    runner = ground arith;
    guard = ground arith;
    kill = ground arith;
    monitor = ground arith;
    cancellers = λ j. ground (arith, h.cancellers i, h.cancellers j);
    calls = ground (arith, h.cancellers i);
  }

  run_from-Starts :
      (a : Answer K E) (pc : Pc K E) (s : System K E)
      → s.runner ≡ pc
      → Guarded pc s.guard s.calls
      → Starts k (run_from other t with_cancel a pc s).calls
      → Starts k s.calls
  unfolding run_from
  run_from-Starts a Pc.spawning s e g m = Unspawned-Starts k s.calls g
  run_from-Starts a (Pc.pumping x) s e g m = ground arith
  run_from-Starts a _ s e g m = ground arith

  Grown-Starts :
      {before after : List (Call K)} → Grown before after → Starts k after → Starts k before
  Grown-Starts same m = m
  Grown-Starts (probed who k' alive) m = m
  Grown-Starts (killed who k' grace foreign) m = m

  turn_step-On :
      (turn : Turn) (a : Answer K E) (s : System K E)
      → Guarded s.runner s.guard s.calls
      → (Starts k s.calls → On k s)
      → Starts k (turn_step other t with_cancel turn a s).calls
      → On k (turn_step other t with_cancel turn a s)
  unfolding turn_step runner_step monitor_step cancel_step
  turn_step-On Turn.runner a s g h m =
      run_from-On a s.runner s refl (h (run_from-Starts a s.runner s refl g m)) m
  turn_step-On Turn.monitor a s g h m =
      watch_from-On a s.monitor s refl (h (Grown-Starts (monitor_step-Frame s a).calls m))
  turn_step-On (Turn.canceller i) a s g h m =
      cancel_from-On a i (s.cancellers i) s refl
        (h (Grown-Starts (cancel_step-Frame s a i).calls m))

  Reach-On :
      (h : CancelHandle K) {s : System K E}
      → h.kill ≡ none
      → Reach other t with_cancel (init E h) s
      → Starts k s.calls
      → On k s
  unfolding init
  Reach-On h empty here m = record {
    runner = tt;
    guard = tt;
    kill = ground arith;
    monitor = tt;
    cancellers = λ i. tt;
    calls = tt;
  }
  Reach-On h empty (next {u} r turn a) m =
      turn_step-On turn a u (Reach-Inv other t with_cancel h r) (Reach-On h empty r) m

  -- A run touches no process but its own. If the cancel handle holds no kill handle when the run
  -- starts, then at every moment all calls of the platform layer, by the run, its monitor, its
  -- drop guard and the calls of `cancel`, are about the process that the run has started.
  pub run_owns :
      (h : CancelHandle K) (s : System K E)
      → h.kill ≡ none
      → Reach other t with_cancel (init E h) s
      → Spawned k s.calls
      → OnlyOn k s.calls
  run_owns h s empty r started = (Reach-On h empty r (Spawned-Starts k s.calls started)).calls
