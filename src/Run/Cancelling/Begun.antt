-- ===== src/Run/Cancelling/Begun.antt =====
-- Which places of `run_impl` of src/task.rs come after a spawn that succeeded.
use aer_core.Base.{String, Bool, true, false, ◌≡◌, refl, List, [], ◌∷◌, err, arith}
use aer_core.Error.{spawn_failed}
use aer_core.Task.{Task, CancelHandle}
use aer_core.Run.System.{
  returned, Pc, Call, spawned, waited, tree_alive, kill_escalating, reap_abandoned, System, Answer,
  init,
}
use aer_core.Run.Runner.{run_from, runner_step}
use aer_core.Run.Schedule.{Turn, turn_step, Reach, here, next}
use aer_core.Run.Frame.{Grown, same, probed, killed, Frame, cancel_step-Frame, monitor_step-Frame}
use aer_core.Run.Cleanup.{Spawned}

-- No process was started: before the spawn, and after one that failed.
abbrev pub is_blank : {K E : Type 0} → Pc K E → Bool
is_blank Pc.spawning = true
is_blank (Pc.dropping k (returned (err (spawn_failed e)))) = true
is_blank (Pc.reaping k (returned (err (spawn_failed e)))) = true
is_blank (Pc.ended (returned (err (spawn_failed e)))) = true
is_blank _ = false

abbrev pub HasSpawned : {K : Type 0} → List (Call K) → Type 0
HasSpawned [] = ⊥
HasSpawned (spawned k ∷ l) = Unit
HasSpawned (waited k code ∷ l) = HasSpawned l
HasSpawned (tree_alive who k alive ∷ l) = HasSpawned l
HasSpawned (kill_escalating who k grace ∷ l) = HasSpawned l
HasSpawned (reap_abandoned k ∷ l) = HasSpawned l

pub HasSpawned-Spawned : {K : Type 0} (l : List (Call K)) → HasSpawned l → (k : K) × Spawned k l
HasSpawned-Spawned [] h = absurd h
HasSpawned-Spawned (spawned k ∷ l) h = (k, refl)
HasSpawned-Spawned (waited k code ∷ l) h = HasSpawned-Spawned l h
HasSpawned-Spawned (tree_alive who k alive ∷ l) h = HasSpawned-Spawned l h
HasSpawned-Spawned (kill_escalating who k grace ∷ l) h = HasSpawned-Spawned l h
HasSpawned-Spawned (reap_abandoned k ∷ l) h = HasSpawned-Spawned l h

HasSpawned-Grown :
    {K : Type 0} {before after : List (Call K)}
    → Grown before after
    → HasSpawned before
    → HasSpawned after
HasSpawned-Grown same h = h
HasSpawned-Grown (probed who k alive) h = h
HasSpawned-Grown (killed who k grace foreign) h = h

module _ {K E : Type 0} (other : String → E) (t : Task) where
  abbrev Begun : System K E → Type 0
  Begun s = is_blank s.runner ≡ false → HasSpawned s.calls

  run_from-Begun :
      (a : Answer K E) (pc : Pc K E) (s : System K E)
      → s.runner ≡ pc
      → (is_blank pc ≡ false → HasSpawned s.calls)
      → Begun (run_from other t true a pc s)
  unfolding run_from
  run_from-Begun a Pc.spawning s e h = ground arith
  run_from-Begun a (Pc.pumping x) s e h = ground arith
  run_from-Begun a (Pc.dropping k r) s e h = ground (arith, h)
  run_from-Begun a (Pc.reaping k r) s e h = ground (arith, h)
  run_from-Begun a (Pc.ended r) s e h = rw e h
  run_from-Begun a _ s e h = ground arith

  Frame-Begun : {s s' : System K E} → Frame s s' → Begun s → Begun s'
  Frame-Begun f h = rw f.runner (λ blank. HasSpawned-Grown f.calls (h blank))

  turn_step-Begun :
      (turn : Turn) (a : Answer K E) (s : System K E)
      → Begun s
      → Begun (turn_step other t true turn a s)
  unfolding turn_step runner_step
  turn_step-Begun Turn.runner a s h = run_from-Begun a s.runner s refl h
  turn_step-Begun Turn.monitor a s h = Frame-Begun (monitor_step-Frame s a) h
  turn_step-Begun (Turn.canceller i) a s h = Frame-Begun (cancel_step-Frame s a i) h

  module _ (h : CancelHandle K) where
    pub Reach-Begun : {s : System K E} → Reach other t true (init E h) s → Begun s
    unfolding init
    Reach-Begun here = λ e. cc
    Reach-Begun (next {u} r turn a) = turn_step-Begun turn a u (Reach-Begun r)
