-- ===== src/Demo/Runs.antt =====
-- The programs of examples/cancel.rs and examples/timeout.rs on concrete runs.
use aer_core.Base.{
  ℕ, ℤ, pos, negsuc, String, true, false, ◌≡◌, refl, List, [], ◌∷◌, Result, ok, err,
}
use aer_core.Error.{AerError}
use aer_core.Event.{debug_reason}
use aer_core.Task.{new, new_handle, with_timeout}
use aer_core.Run.System.{Pc, System, Answer, init}
use aer_core.Run.Runner.{runner_step}
use aer_core.Run.Canceller.{cancel_step}
use aer_core.Run.Monitor.{monitor_step}
use aer_core.Run.Schedule.{Turn, turn_step, execute, here, execute-Reach}
use aer_core.Run.Fixtures.{no_error, answer, cancellation}
use aer_core.Run.Completion.{repeat}
use aer_core.Demo.Programs.{
  sleep_task, hello_task, slow, fast, printed, line, cancel_line, cancel_main, cancel_verdict,
  slow_verdict, fast_verdict, timeout_main,
}
use aer_core.Demo.Cancel.{CancelTranscript, cancel_main-CancelTranscript}

abbrev nat_text : ℕ → String
nat_text n = "7"

abbrev int_text : ℤ → String
int_text (pos n) = "0"
int_text (negsuc n) = "-1"

abbrev result_text : Result (Unit {0}) (AerError ℕ) → String
result_text (ok u) = "Ok(())"
result_text (err e) = "Err(..)"

-- The cancel comes while the process runs.
abbrev cancelled_schedule : List (Turn × Answer ℕ ℕ)
cancelled_schedule =
    repeat 6 (Turn.runner, answer true)
      (repeat 6 (Turn.canceller 0, answer true) (repeat 12 (Turn.runner, answer true) []))

abbrev cancelled_sleep : System ℕ ℕ
cancelled_sleep =
    execute no_error (sleep_task false) true cancelled_schedule (init ℕ (new_handle ℕ))

cancelled_sleep-ended : cancelled_sleep.runner ≡ Pc.ended cancellation
unfolding execute turn_step runner_step cancel_step init sleep_task new new_handle
cancelled_sleep-ended = refl

cancel_main_text :
    cancel_main nat_text int_text result_text cancelled_sleep.events (err AerError.cancelled)
    ≡ "\nrun_with_cancel returned Err(Cancelled) — as expected."
      ∷ "  → Exited   (code -1, reason CancelRequested)" ∷ "  → Started  (pid 7)"
      ∷ "Spawning long-running process (will be cancelled in ~1 s)...\n" ∷ []
unfolding execute turn_step runner_step cancel_step init sleep_task new new_handle cancel_main
    cancel_verdict cancel_line printed debug_reason
cancel_main_text = refl

cancel_main-CancelTranscript_example :
    CancelTranscript no_error nat_text int_text result_text
      (err AerError.cancelled)
      cancelled_sleep.calls
      (cancel_main nat_text int_text result_text cancelled_sleep.events (err AerError.cancelled))
cancel_main-CancelTranscript_example =
    cancel_main-CancelTranscript no_error nat_text int_text result_text false cancelled_sleep
      (err AerError.cancelled)
      (execute-Reach no_error (sleep_task false) true cancelled_schedule (init ℕ (new_handle ℕ))
        (init ℕ (new_handle ℕ)) here)
      cancelled_sleep-ended

-- The deadline of the slow task passes while its process runs; the fast one ends by itself.
abbrev expiring : List (Turn × Answer ℕ ℕ)
expiring =
    repeat 6 (Turn.runner, answer true)
      (repeat 4 (Turn.monitor, answer true) (repeat 12 (Turn.runner, answer true) []))

timeout_main_text :
    timeout_main nat_text int_text result_text
      (execute no_error (slow false) false expiring (init ℕ (new_handle ℕ))).events
      (err AerError.timed_out)
      (execute no_error
        (fast false)
        false
        (repeat 20 (Turn.runner, answer true) [])
        (init ℕ (new_handle ℕ))).events
      (ok tt)
    ≡ "  → Completed normally" ∷ "  → Exited   (code 0)" ∷ "  → Started  (pid 7)"
      ∷ "=== Process exits before timeout (30 s) ===\n" ∷ "  → TimedOut\n"
      ∷ "  → Exited   (code -1)" ∷ "  → Started  (pid 7)"
      ∷ "=== Process outlives timeout (2 s) ===\n" ∷ []
unfolding execute turn_step runner_step monitor_step init slow fast sleep_task hello_task
    with_timeout new new_handle timeout_main slow_verdict fast_verdict line printed
timeout_main_text = refl
