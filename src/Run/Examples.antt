-- ===== src/Run/Examples.antt =====
-- Runs of `run_impl` of src/task.rs on concrete schedules, and the theorems on runs at them.
use aer_core.Base.{
  ℕ, pos, Bool, true, false, ◌≡◌, refl, ◌⊎◌, none, List, [], ◌∷◌, ◌++◌, map, ok, err, arith,
}
use mathlib.Core.List.{reverse}
use aer_core.Error.{AerError}
use aer_core.Event.{ExitReason, started, exited}
use aer_core.Task.{CancelHandle, with_capture_output, is_cancelled}
use aer_core.Run.System.{Pc, System, Answer, init}
use aer_core.Run.Runner.{runner_step, chunk_event}
use aer_core.Run.Canceller.{cancel_step}
use aer_core.Run.Schedule.{Turn, turn_step, execute, Reach, here, execute-Reach}
use aer_core.Run.Fixtures.{
  no_error, echo, captured, child, output, fresh, answer, success, cancellation,
}
use aer_core.Run.Lifecycle.{Lifecycle, Ends, events-Lifecycle, ended-Ends}
use aer_core.Run.Cleanup.{Cleaned, Spawned}
use aer_core.Run.Cleanup.Invariant.{ended-Cleaned}
use aer_core.Run.Ownership.{OnlyOn}
use aer_core.Run.Ownership.Invariant.{run_owns}
use aer_core.Run.Cancelling.{Settled, FoundDead, is_busy}
use aer_core.Run.Cancelling.Verdict.{ended-Settled}
use aer_core.Run.Cancelling.After.{OnlyMonitor, cancel_is_over}
use aer_core.Run.Cancelling.Own.{ShotOn, FoundDeadOn, ended-ShotOn, cancel_heard}
use aer_core.Run.Cancelling.Early.{early_cancel_heard}
use aer_core.Run.Delivery.{chunks_of, all_received, chunks_in_order}
use aer_core.Run.Transcript.{Transcript, ended-Transcript}
use aer_core.Run.Completion.{undisturbed, unused, repeat, run_completes}

abbrev undisturbed_run : System ℕ ℕ
undisturbed_run =
    execute no_error captured true (undisturbed true child (pos 0) output) (init ℕ fresh)

undisturbed_run-Reach : Reach no_error captured true (init ℕ fresh) undisturbed_run
undisturbed_run-Reach =
    execute-Reach no_error captured true (undisturbed true child (pos 0) output) (init ℕ fresh)
      (init ℕ fresh) here

-- A cancel between the spawn and the wiring, and then the run.
abbrev cancel_early : Bool → ℕ → List (Turn × Answer ℕ ℕ)
cancel_early alive n =
    repeat 2 (Turn.runner, answer alive)
      (repeat 3 (Turn.canceller 0, answer alive) (repeat n (Turn.runner, answer alive) []))

abbrev cancelled_run : Bool → ℕ → System ℕ ℕ
cancelled_run alive n = execute no_error echo true (cancel_early alive n) (init ℕ fresh)

cancelled_run-Reach :
    (alive : Bool) (n : ℕ) → Reach no_error echo true (init ℕ fresh) (cancelled_run alive n)
cancelled_run-Reach alive n =
    execute-Reach no_error echo true (cancel_early alive n) (init ℕ fresh) (init ℕ fresh) here

-- A handle on which `cancel` was called before the run.
abbrev requested : CancelHandle ℕ
requested = record { cancelled = true; kill_fired = false; kill = none; poisoned = false }

abbrev run_after_cancel : System ℕ ℕ
run_after_cancel =
    execute no_error echo true (repeat 25 (Turn.runner, answer false) []) (init ℕ requested)

events-Lifecycle_example : Lifecycle true undisturbed_run.events
events-Lifecycle_example =
    events-Lifecycle no_error captured true fresh undisturbed_run undisturbed_run-Reach

undisturbed_run-ended : undisturbed_run.runner ≡ Pc.ended success
unfolding execute turn_step runner_step init
undisturbed_run-ended = refl

ended-Ends_example : Ends true success undisturbed_run.events undisturbed_run.calls
ended-Ends_example =
    ended-Ends no_error captured true fresh undisturbed_run success undisturbed_run-Reach
      undisturbed_run-ended

ended-Cleaned_example : Cleaned success undisturbed_run.calls
ended-Cleaned_example =
    ended-Cleaned no_error captured true fresh undisturbed_run success undisturbed_run-Reach
      undisturbed_run-ended

run_after_cancel-ended : run_after_cancel.runner ≡ Pc.ended success
unfolding execute turn_step runner_step init
run_after_cancel-ended = refl

requested-is_cancelled : is_cancelled requested ≡ true
unfolding is_cancelled
requested-is_cancelled = refl

early_cancel_heard_example : FoundDead run_after_cancel.calls
early_cancel_heard_example =
    early_cancel_heard no_error echo requested requested-is_cancelled run_after_cancel
      (execute-Reach no_error echo true (repeat 25 (Turn.runner, answer false) [])
        (init ℕ requested) (init ℕ requested) here)
      run_after_cancel-ended

cancelled_run-ended : (cancelled_run true 25).runner ≡ Pc.ended cancellation
unfolding execute turn_step runner_step cancel_step init
cancelled_run-ended = refl

ended-Settled_example :
    Settled {E = ℕ}
      (err AerError.cancelled)
      (cancelled_run true 25).cancel.kill_fired
      (cancelled_run true 25).cancel.kill
ended-Settled_example =
    ended-Settled no_error echo fresh (cancelled_run true 25) (err AerError.cancelled)
      (cancelled_run-Reach true 25) cancelled_run-ended

ended-ShotOn_example :
    (k : ℕ) × Spawned k (cancelled_run true 25).calls × ShotOn k (cancelled_run true 25).calls
ended-ShotOn_example =
    ended-ShotOn no_error echo fresh (cancelled_run true 25) refl refl (cancelled_run-Reach true 25)
      cancelled_run-ended

-- The process is found dead and the kill is not fired: the run goes on to `wait`.
cancelled_run-idle : (i : ℕ) → is_busy ((cancelled_run false 6).cancellers i) ≡ false
unfolding execute turn_step runner_step cancel_step init
cancelled_run-idle i = ground arith

cancel_heard_example :
    (k : ℕ) × Spawned k (cancelled_run false 6).calls
    × (ShotOn k (cancelled_run false 6).calls ⊎ FoundDeadOn k (cancelled_run false 6).calls)
unfolding execute turn_step runner_step cancel_step init is_cancelled
cancel_heard_example =
    cancel_heard no_error echo fresh (cancelled_run false 6) refl refl refl
      (cancelled_run-Reach false 6) refl refl cancelled_run-idle

-- Without a cancel handle, as `Task::run` runs.
run_completes_example :
    let s =
      execute no_error
        (with_capture_output echo true)
        false
        (undisturbed false child (pos 0) output)
        (init ℕ (unused none false)) in
    (s.runner ≡ Pc.ended success)
    × (reverse s.events
        ≡ started 7 ∷ (map chunk_event output ++ exited (pos 0) ExitReason.natural_exit ∷ []))
run_completes_example = run_completes no_error echo child (pos 0) false none false output

chunks_in_order_example :
    reverse (chunks_of undisturbed_run.events)
    ≡ all_received no_error captured true (undisturbed true child (pos 0) output) (init ℕ fresh)
chunks_in_order_example =
    chunks_in_order no_error captured true fresh (undisturbed true child (pos 0) output)

ended-Transcript_example :
    Transcript {E = ℕ}
      (ok tt)
      (all_received no_error captured true (undisturbed true child (pos 0) output) (init ℕ fresh))
      (reverse undisturbed_run.events)
      undisturbed_run.calls
ended-Transcript_example =
    ended-Transcript no_error captured true fresh (undisturbed true child (pos 0) output) (ok tt)
      undisturbed_run-ended

undisturbed_run-Spawned : Spawned 7 undisturbed_run.calls
unfolding execute turn_step runner_step init
undisturbed_run-Spawned = refl

run_owns_example : OnlyOn 7 undisturbed_run.calls
run_owns_example =
    run_owns 7 no_error captured true fresh undisturbed_run refl undisturbed_run-Reach
      undisturbed_run-Spawned

-- A run that has returned, and a call of `cancel` after that.
abbrev returned_run : System ℕ ℕ
returned_run = execute no_error echo true (repeat 25 (Turn.runner, answer true) []) (init ℕ fresh)

abbrev late_cancel : List (Turn × Answer ℕ ℕ)
late_cancel = repeat 4 (Turn.canceller 0, answer true) []

returned_run-ended : returned_run.runner ≡ Pc.ended success
unfolding execute turn_step runner_step init
returned_run-ended = refl

cancel_is_over_example :
    OnlyMonitor returned_run.calls (execute no_error echo true late_cancel returned_run).calls
cancel_is_over_example =
    cancel_is_over no_error echo (ok tt) fresh returned_run
      (execute no_error echo true late_cancel returned_run) tt
      (execute-Reach no_error echo true (repeat 25 (Turn.runner, answer true) []) (init ℕ fresh)
        (init ℕ fresh) here)
      returned_run-ended
      (execute-Reach no_error echo true late_cancel returned_run returned_run here)
