-- ===== src/Run/Faults.antt =====
-- Runs of src/task.rs that fail, time out or meet a used cancel handle, on concrete schedules.
use aer_core.Base.{ℕ, ◌≤◌, ◌⊎◌, true, false, ◌≡◌, ◌≢◌, refl, none, some, List, [], ◌∷◌, err, arith}
use aer_core.Error.{AerError}
use aer_core.Task.{Task, CancelHandle}
use aer_core.Run.System.{CancelPc, Outcome, returned, Pc, System, Answer, init}
use aer_core.Run.Runner.{runner_step}
use aer_core.Run.Monitor.{monitor_step}
use aer_core.Run.Canceller.{cancel_step}
use aer_core.Run.Schedule.{Turn, turn_step, execute, Reach, here, execute-Reach}
use aer_core.Run.Fixtures.{no_error, echo, captured, fresh, answer, success}
use aer_core.Run.Completion.{repeat}
use aer_core.Run.Progress.{free_turns, run_ends}
use aer_core.Run.Mutex.Release.{own_turns, cancel_returns}
use aer_core.Run.Cancelling.{is_busy}
use aer_core.Run.Deadline.{HasActed, MonitorFoundDead, Overtaken}
use aer_core.Run.Deadline.Invariant.{deadline_decides}
use aer_core.Run.Cancelling.Reuse.{reused_handle, wait_failed_leaves_kill}

abbrev to_the_end : Answer ℕ ℕ → List (Turn × Answer ℕ ℕ)
to_the_end a = repeat 25 (Turn.runner, a) []

-- A handle that a cancel has fired in an earlier run.
abbrev spent : CancelHandle ℕ
spent = record { cancelled = true; kill_fired = true; kill = none; poisoned = false }

abbrev later_run : System ℕ ℕ
later_run = execute no_error echo true (to_the_end (answer false)) (init ℕ spent)

-- The process of this run exits by itself with code 0.
later_run-ended : later_run.runner ≡ Pc.ended (returned (err AerError.cancelled))
unfolding execute turn_step runner_step init
later_run-ended = refl

reused_handle_example : later_run.runner ≢ Pc.ended success
reused_handle_example = reused_handle no_error echo spent later_run refl (
    execute-Reach no_error echo true (to_the_end (answer false)) (init ℕ spent) (init ℕ spent) here)

-- `wait` fails with the error 10.
abbrev broken : Answer ℕ ℕ
broken = record (answer true) { wait = some (err 10) }

abbrev broken_run : System ℕ ℕ
broken_run = execute no_error echo true (to_the_end broken) (init ℕ fresh)

broken_run-Reach : Reach no_error echo true (init ℕ fresh) broken_run
broken_run-Reach =
    execute-Reach no_error echo true (to_the_end broken) (init ℕ fresh) (init ℕ fresh) here

broken_run-ended : broken_run.runner ≡ Pc.ended (returned (err (AerError.wait_failed 10)))
unfolding execute turn_step runner_step init
broken_run-ended = refl

wait_failed_leaves_kill_example : (k : ℕ) × (broken_run.cancel.kill ≡ some k)
wait_failed_leaves_kill_example =
    wait_failed_leaves_kill no_error echo fresh broken_run 10 broken_run-Reach broken_run-ended

-- The same with capture, where the run first drains the channel.
abbrev drained_run : System ℕ ℕ
drained_run = execute no_error captured true (to_the_end broken) (init ℕ fresh)

drained_run-free : 23 ≤ free_turns no_error captured true (to_the_end broken) (init ℕ fresh)
unfolding free_turns turn_step runner_step init
drained_run-free = omega arith

run_ends_example : (r : Outcome ℕ) × (drained_run.runner ≡ Pc.ended r)
run_ends_example =
    run_ends no_error captured true fresh (to_the_end broken) (init ℕ fresh) here drained_run-free

-- A task with a timeout, whose deadline passes when `run_impl` waits.
abbrev limited : Task
limited = record echo { timeout = some 1000 }

abbrev overtime : List (Turn × Answer ℕ ℕ)
overtime =
    repeat 8 (Turn.runner, answer true)
      (repeat 4 (Turn.monitor, answer true) (to_the_end (answer true)))

abbrev overtime_run : System ℕ ℕ
overtime_run = execute no_error limited true overtime (init ℕ fresh)

-- A call of `cancel` that has just taken the mutex of a running process.
abbrev locked : List (Turn × Answer ℕ ℕ)
locked = repeat 6 (Turn.runner, answer true) (repeat 2 (Turn.canceller 3, answer true) [])

abbrev locked_run : System ℕ ℕ
locked_run = execute no_error echo true locked (init ℕ fresh)

locked_run-owner : locked_run.owner ≡ some 3
unfolding execute turn_step runner_step cancel_step init
locked_run-owner = refl

-- Its turns among those of the run, the monitor and another call.
abbrev interleaved : List (Turn × Answer ℕ ℕ)
interleaved =
    (Turn.runner, answer true)
    ∷ (Turn.canceller 3, answer true)
    ∷ (Turn.canceller 4, answer true)
    ∷ (Turn.canceller 3, answer true)
    ∷ (Turn.monitor, answer true)
    ∷ (Turn.canceller 3, answer true)
    ∷ (Turn.runner, answer true)
    ∷ []

three_turns : 3 ≤ own_turns 3 interleaved
unfolding own_turns
three_turns = omega arith

cancel_returns_example :
    let u = execute no_error echo true interleaved locked_run in
    (u.cancellers 3 ≡ CancelPc.back) × (u.owner ≢ some 3)
cancel_returns_example =
    cancel_returns no_error echo true fresh locked_run 3 interleaved
      (execute-Reach no_error echo true locked (init ℕ fresh) (init ℕ fresh) here) locked_run-owner
      three_turns

-- A second call of `cancel`, made while the first is at work, has returned.
abbrev contended : List (Turn × Answer ℕ ℕ)
contended = (Turn.canceller 3, answer true) ∷ (Turn.canceller 4, answer true) ∷ []

abbrev contended_run : System ℕ ℕ
contended_run = execute no_error echo true contended (init ℕ fresh)

contended_run-busy : is_busy (contended_run.cancellers 3) ≡ true
unfolding execute turn_step cancel_step init
contended_run-busy = refl

contended_run-back : contended_run.cancellers 4 ≡ CancelPc.back
unfolding execute turn_step cancel_step init
contended_run-back = refl

-- The deadline passes, the monitor is at its kill, and then a cancel kills as well.
abbrev to_the_kill : List (Turn × Answer ℕ ℕ)
to_the_kill = repeat 8 (Turn.runner, answer true) (repeat 3 (Turn.monitor, answer true) [])

abbrev from_the_kill : List (Turn × Answer ℕ ℕ)
from_the_kill = repeat 6 (Turn.canceller 0, answer true) (repeat 14 (Turn.runner, answer true) [])

abbrev acted_run : System ℕ ℕ
acted_run = execute no_error limited true to_the_kill (init ℕ fresh)

abbrev overtaken_run : System ℕ ℕ
overtaken_run = execute no_error limited true from_the_kill acted_run

acted_run-HasActed : HasActed acted_run.monitor × (acted_run.stopped ≡ false)
unfolding execute turn_step runner_step monitor_step init
acted_run-HasActed = (tt, refl)

overtaken_run-ended :
    (overtaken_run.cancel.kill_fired ≡ true)
    × (overtaken_run.runner ≡ Pc.ended (returned (err AerError.timed_out)))
unfolding execute turn_step runner_step monitor_step cancel_step init
overtaken_run-ended = (refl, refl)

deadline_decides_example :
    MonitorFoundDead acted_run.calls ⊎ Overtaken {E = ℕ} (returned (err AerError.timed_out))
deadline_decides_example =
    deadline_decides no_error limited true fresh acted_run overtaken_run
      (returned (err AerError.timed_out))
      (execute-Reach no_error limited true to_the_kill (init ℕ fresh) (init ℕ fresh) here)
      acted_run-HasActed.0 acted_run-HasActed.1
      (execute-Reach no_error limited true from_the_kill acted_run acted_run here)
      overtaken_run-ended.1
