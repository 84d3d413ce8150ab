-- ===== src/Run/Progress.antt =====
-- A run cannot hang but on what it waits for: the mutex of the cancel handle, chunks that still
-- arrive, or a call that does not return (src/task.rs).
use aer_core.Base.{
  ℕ, ◌+◌, ◌≤◌, String, Bool, false, ◌≡◌, refl, ◌∙◌, ◌⊎◌, inl, Option, none, List, [], ◌∷◌, arith,
}
use aer_core.Task.{Task, CancelHandle}
use aer_core.Os.{ChunkMsg}
use aer_core.Run.System.{Outcome, Pc, MonitorPc, CancelPc, System, Answer, init}
use aer_core.Run.Runner.{run_from, runner_step}
use aer_core.Run.Monitor.{watch_from, monitor_step}
use aer_core.Run.Canceller.{cancel_from, cancel_step}
use aer_core.Run.Schedule.{Turn, turn_step, execute, Reach, here, next}
use aer_core.Run.Frame.{monitor_step-Frame, cancel_step-Frame}

-- How many steps there are to the end of `run_impl` at most.
abbrev rank : {K E : Type 0} → Pc K E → ℕ
rank Pc.spawning = 23
rank (Pc.entering h) = 22
rank (Pc.announcing h) = 21
rank (Pc.wiring h) = 20
rank (Pc.checking_cancelled h) = 19
rank (Pc.checking_fired h) = 18
rank (Pc.probing h) = 17
rank (Pc.marking h) = 16
rank (Pc.killing h) = 15
rank (Pc.watching h) = 14
rank (Pc.choosing h) = 13
rank (Pc.pumping h) = 12
rank (Pc.settling h) = 11
rank (Pc.waiting h) = 11
rank (Pc.disarming h code) = 10
rank (Pc.clearing h code) = 9
rank (Pc.stopping code) = 8
rank (Pc.reading_timed_out code) = 7
rank (Pc.reading_fired code out) = 6
rank (Pc.exiting code out stopped) = 5
rank (Pc.reporting code out stopped) = 4
rank (Pc.finishing out stopped) = 3
rank (Pc.dropping k r) = 2
rank (Pc.reaping k r) = 1
rank (Pc.ended r) = 0

rank-le : {K E : Type 0} (pc : Pc K E) → rank pc ≤ 23
rank-le Pc.spawning = omega arith
rank-le _ = omega arith

rank-eq-zero : {K E : Type 0} (pc : Pc K E) → rank pc ≡ 0 → (r : Outcome E) × (pc ≡ Pc.ended r)
rank-eq-zero (Pc.ended r) e = (r, refl)
rank-eq-zero _ e = absurd (omega arith)

-- A turn of the runner at which nobody holds the mutex and no chunk arrives counts as one.
abbrev is_free : Turn → Option ℕ → Option ChunkMsg → ℕ
is_free Turn.runner none none = 1
is_free _ owner message = 0

module _ {K E : Type 0} (other : String → E) (t : Task) (with_cancel : Bool) where
  run_from-rank :
      (a : Answer K E) (pc : Pc K E) (s : System K E)
      → s.runner ≡ pc
      → s.chunk_tx ≡ false
      → let s' = run_from other t with_cancel a pc s in
        (rank s'.runner + is_free Turn.runner s.owner a.message ≤ rank pc) ⊎ (rank s'.runner ≡ 0)
  unfolding run_from
  run_from-rank a Pc.spawning s e c = ground arith
  run_from-rank a (Pc.pumping x) s e c = ground arith
  run_from-rank a _ s e c = ground arith

  -- `run_impl` has no sender of its own left when a step is over.
  run_from-chunk_tx :
      (a : Answer K E) (pc : Pc K E) (s : System K E)
      → s.chunk_tx ≡ false
      → (run_from other t with_cancel a pc s).chunk_tx ≡ false
  unfolding run_from
  run_from-chunk_tx a Pc.spawning s c = ground arith
  run_from-chunk_tx a (Pc.pumping x) s c = ground arith
  run_from-chunk_tx a _ s c = ground arith

  watch_from-chunk_tx :
      (a : Answer K E) (pc : MonitorPc K) (s : System K E)
      → (watch_from a pc s).chunk_tx ≡ s.chunk_tx
  unfolding watch_from
  watch_from-chunk_tx a MonitorPc.unborn s = refl
  watch_from-chunk_tx a _ s = refl

  cancel_from-chunk_tx :
      (a : Answer K E) (i : ℕ) (pc : CancelPc K) (s : System K E)
      → (cancel_from a i pc s).chunk_tx ≡ s.chunk_tx
  unfolding cancel_from
  cancel_from-chunk_tx a i CancelPc.uncalled s = ground arith
  cancel_from-chunk_tx a i _ s = ground arith

  turn_step-chunk_tx :
      (turn : Turn) (a : Answer K E) (s : System K E)
      → s.chunk_tx ≡ false
      → (turn_step other t with_cancel turn a s).chunk_tx ≡ false
  unfolding turn_step runner_step monitor_step cancel_step
  turn_step-chunk_tx Turn.runner a s c = run_from-chunk_tx a s.runner s c
  turn_step-chunk_tx Turn.monitor a s c = watch_from-chunk_tx a s.monitor s ∙ c
  turn_step-chunk_tx (Turn.canceller i) a s c = cancel_from-chunk_tx a i (s.cancellers i) s ∙ c

  Reach-chunk_tx :
      (h : CancelHandle K) {s : System K E}
      → Reach other t with_cancel (init E h) s
      → s.chunk_tx ≡ false
  unfolding init
  Reach-chunk_tx h here = refl
  Reach-chunk_tx h (next {u} r turn a) = turn_step-chunk_tx turn a u (Reach-chunk_tx h r)

  turn_step-rank :
      (turn : Turn) (a : Answer K E) (s : System K E)
      → s.chunk_tx ≡ false
      → let s' = turn_step other t with_cancel turn a s in
        (rank s'.runner + is_free turn s.owner a.message ≤ rank s.runner) ⊎ (rank s'.runner ≡ 0)
  unfolding turn_step runner_step
  turn_step-rank Turn.runner a s c = run_from-rank a s.runner s refl c
  turn_step-rank Turn.monitor a s c = inl (rw (monitor_step-Frame s a).runner (omega arith))
  turn_step-rank (Turn.canceller i) a s c = inl (rw (cancel_step-Frame s a i).runner (omega arith))

  -- The turns of the runner in a schedule at which nobody holds the mutex and no chunk arrives.
  unfoldable pub free_turns : List (Turn × Answer K E) → System K E → ℕ
  free_turns [] s = 0
  free_turns ((turn, a) ∷ schedule) s =
      is_free turn s.owner a.message + free_turns schedule (turn_step other t with_cancel turn a s)

  execute-rank :
      (schedule : List (Turn × Answer K E)) (s : System K E)
      → s.chunk_tx ≡ false
      → let s' = execute other t with_cancel schedule s in
        (rank s'.runner + free_turns schedule s ≤ rank s.runner) ⊎ (rank s'.runner ≡ 0)
  unfolding execute free_turns
  execute-rank [] s c = inl (omega arith)
  execute-rank ((turn, a) ∷ schedule) s c = ground (
    arith,
    turn_step-rank turn a s c,
    execute-rank schedule (turn_step other t with_cancel turn a s) (turn_step-chunk_tx turn a s c),
  )

  -- From any state of a run and however the threads interleave, `run_impl` has ended when the runner has
  -- had 23 turns at which no call of `cancel` holds the mutex and the drain threads send no further
  -- chunk but have dropped their senders, where the runner receives. This is so whatever else the
  -- environment answers, failures and panics included, if the calls that it makes return.
  pub run_ends :
      (h : CancelHandle K) (schedule : List (Turn × Answer K E)) (s : System K E)
      → Reach other t with_cancel (init E h) s
      → 23 ≤ free_turns schedule s
      → (r : Outcome E) × ((execute other t with_cancel schedule s).runner ≡ Pc.ended r)
  run_ends h schedule s r enough =
      rank-eq-zero (execute other t with_cancel schedule s).runner
        (ground (arith, execute-rank schedule s (Reach-chunk_tx h r), rank-le s.runner))
