-- ===== src/Run/Cleanup/Invariant.antt =====
-- Every step of a run keeps the drop guard in line with what has become of the process
-- (src/task.rs).
use aer_core.Base.{
  String, Bool, true, false, ◌≡◌, refl, subst, Option, none, some, List, ok, err, arith,
}
use aer_core.Error.{AerError}
use aer_core.Task.{Task, CancelHandle}
use aer_core.Run.System.{Outcome, returned, Pc, Call, KillOnDropGuard, System, Answer, init}
use aer_core.Run.Runner.{run_from, runner_step}
use aer_core.Run.Schedule.{Turn, turn_step, Reach, here, next}
use aer_core.Run.Frame.{Grown, same, probed, killed, Frame, cancel_step-Frame, monitor_step-Frame}
use aer_core.Run.Cleanup.{Unspawned, Waited, Spawned, DropKilled, Cleaned}

-- An armed guard leads here: the outcome is one of an abandoned run.
abbrev IsAbandoning : {E : Type 0} → Outcome E → Type 0
IsAbandoning (returned (ok u)) = ⊥
IsAbandoning (returned (err AerError.timed_out)) = ⊥
IsAbandoning (returned (err AerError.cancelled)) = ⊥
IsAbandoning (returned (err (AerError.spawn_failed e))) = ⊥
IsAbandoning (returned (err (AerError.kill_failed e))) = ⊥
IsAbandoning _ = Unit

abbrev Armed : {K : Type 0} → K → Option (KillOnDropGuard K) → List (Call K) → Type 0
Armed k g l = (g ≡ some (record { kill = k; armed = true })) × Spawned k l

abbrev Disarmed : {K : Type 0} → Option (KillOnDropGuard K) → List (Call K) → Type 0
Disarmed none l = ⊥
Disarmed (some g) l = (g.armed ≡ false) × Waited l

-- The guard at each place of `run_impl`.
abbrev pub Guarded : {K E : Type 0} → Pc K E → Option (KillOnDropGuard K) → List (Call K) → Type 0
Guarded Pc.spawning g l = Unspawned l
Guarded (Pc.entering h) g l = Armed h.kill g l
Guarded (Pc.announcing h) g l = Armed h.kill g l
Guarded (Pc.wiring h) g l = Armed h.kill g l
Guarded (Pc.checking_cancelled h) g l = Armed h.kill g l
Guarded (Pc.checking_fired h) g l = Armed h.kill g l
Guarded (Pc.probing h) g l = Armed h.kill g l
Guarded (Pc.marking h) g l = Armed h.kill g l
Guarded (Pc.killing h) g l = Armed h.kill g l
Guarded (Pc.watching h) g l = Armed h.kill g l
Guarded (Pc.choosing h) g l = Armed h.kill g l
Guarded (Pc.pumping h) g l = Armed h.kill g l
Guarded (Pc.settling h) g l = Armed h.kill g l
Guarded (Pc.waiting h) g l = Armed h.kill g l
Guarded (Pc.disarming h code) g l = Armed h.kill g l × Waited l
Guarded (Pc.dropping k r) g l = IsAbandoning r × Spawned k l
Guarded (Pc.reaping k r) g l = IsAbandoning r × DropKilled k l
Guarded (Pc.ended r) g l = Cleaned r l
Guarded _ g l = Disarmed g l

module _ {K E : Type 0} (other : String → E) (t : Task) (with_cancel : Bool) where
  run_from-Guarded :
      (a : Answer K E) (pc : Pc K E) (s : System K E)
      → s.runner ≡ pc
      → Guarded pc s.guard s.calls
      → let s' = run_from other t with_cancel a pc s in Guarded s'.runner s'.guard s'.calls
  unfolding run_from
  run_from-Guarded a Pc.spawning s e h = ground arith
  run_from-Guarded a (Pc.pumping x) s e h = ground arith
  run_from-Guarded a _ s e h = ground arith

  Guarded-Grown :
      (pc : Pc K E) (g : Option (KillOnDropGuard K)) {before after : List (Call K)}
      → Grown before after
      → Guarded pc g before
      → Guarded pc g after
  Guarded-Grown Pc.spawning g same h = h
  Guarded-Grown pc g same h = h
  Guarded-Grown pc g (probed who k alive) h = ground arith
  Guarded-Grown pc g (killed who k grace foreign) h = ground arith

  abbrev Inv : System K E → Type 0
  Inv s = Guarded s.runner s.guard s.calls

  Frame-Inv : {s s' : System K E} → Frame s s' → Inv s → Inv s'
  Frame-Inv {s} f h = rw (f.runner, f.guard) (Guarded-Grown s.runner s.guard f.calls h)

  turn_step-Inv :
      (turn : Turn) (a : Answer K E) (s : System K E)
      → Inv s
      → Inv (turn_step other t with_cancel turn a s)
  unfolding turn_step runner_step
  turn_step-Inv Turn.runner a s h = run_from-Guarded a s.runner s refl h
  turn_step-Inv Turn.monitor a s h = Frame-Inv (monitor_step-Frame s a) h
  turn_step-Inv (Turn.canceller i) a s h = Frame-Inv (cancel_step-Frame s a i) h

  pub Reach-Inv :
      (h : CancelHandle K) {s : System K E} → Reach other t with_cancel (init E h) s → Inv s
  unfolding init
  Reach-Inv h here = tt
  Reach-Inv h (next {u} r turn a) = turn_step-Inv turn a u (Reach-Inv h r)

  -- However a run ends, its process is disposed of. After `Ok`, `TimedOut` or `Cancelled`, `wait` has
  -- given its exit code; after `SpawnFailed` there is none; after `WaitFailed` the drop guard has
  -- killed the spawned tree with no grace period and reaped its root after that; after a panic
  -- either `wait` has given an exit code or the guard has killed and reaped.
  pub ended-Cleaned :
      (h : CancelHandle K) (s : System K E) (r : Outcome E)
      → Reach other t with_cancel (init E h) s
      → s.runner ≡ Pc.ended r
      → Cleaned r s.calls
  ended-Cleaned h s r reach e = subst (λ pc. Guarded pc s.guard s.calls) e (Reach-Inv h reach)
