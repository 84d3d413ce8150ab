-- ===== src/Demo/Programs.antt =====
-- examples/hello.rs, cancel.rs, timeout.rs and tree.rs: their tasks, and what their main threads
-- print. A callback prints a line for an event or nothing. Lines and events are newest first. The
-- texts of numbers are std's, and the derived `Debug` of a result is a function.
use Prim.Native.String.{◌++◌}
use aer_core.Base.{
  ℕ, ℤ, ◌*◌, ◌^◌, String, Bool, Option, none, some, List, [], ◌∷◌, Result, ok, err, if◌then◌else◌,
}
use aer_core.Error.{AerError}
use aer_core.Event.{Event, started, exited, stdout_chunk, stderr_chunk, debug_reason}
use aer_core.Task.{Task, new, with_timeout}

-- `println!`, if there is a line
abbrev pub print : Option String → List String → List String
print none out = out
print (some line) out = line ∷ out

-- The output `out` and then the lines of these events.
unfoldable pub printed : (Event → Option String) → List Event → List String → List String
printed line [] out = out
printed line (e ∷ l) out = print (line e) (printed line l out)

-- the task of examples/hello.rs, which is the fast one of examples/timeout.rs
unfoldable pub hello_task : (windows : Bool) → Task
unfolding new
hello_task windows =
    if windows
    then new "cmd" ("/c" ∷ "echo Hello from AER!" ∷ [])
    else new "sh" ("-c" ∷ "echo Hello from AER!" ∷ [])

-- the task of examples/cancel.rs, and the slow one of examples/timeout.rs
unfoldable pub sleep_task : (windows : Bool) → Task
unfolding new
sleep_task windows =
    if windows
    then new "ping" ("-n" ∷ "61" ∷ "127.0.0.1" ∷ [])
    else new "sh" ("-c" ∷ "sleep 60" ∷ [])

-- the tasks of examples/timeout.rs, of two and of thirty seconds
unfoldable pub slow : (windows : Bool) → Task
unfolding sleep_task with_timeout
slow windows = with_timeout (sleep_task windows) (2 * 10 ^ 9)

unfoldable pub fast : (windows : Bool) → Task
unfolding hello_task with_timeout
fast windows = with_timeout (hello_task windows) (30 * 10 ^ 9)

-- the task of examples/tree.rs
unfoldable pub tree_task : (windows : Bool) → Task
unfolding new
tree_task windows =
    if windows
    then new "powershell" (
        "-NoProfile" ∷ "-Command"
        ∷ "Start-Process -NoNewWindow -FilePath ping -ArgumentList @('-n','60','127.0.0.1'); Write-Host 'root exiting'"
        ∷ [])
    else new "sh" ("-c" ∷ "sleep 60 & echo 'root exiting'" ∷ [])

module _ {E : Type 0} (show_nat : ℕ → String) (show_int : ℤ → String)
    (debug_result : Result (Unit {0}) (AerError E) → String) where
  -- the callback of examples/timeout.rs and examples/tree.rs
  unfoldable pub line : Event → Option String
  line (started pid) = some ("  → Started  (pid " ++ (show_nat pid ++ ")"))
  line (exited code reason) = some ("  → Exited   (code " ++ (show_int code ++ ")"))
  line (stdout_chunk seq bytes) = none
  line (stderr_chunk seq bytes) = none

  -- the callback of examples/hello.rs
  unfoldable pub hello_line : Event → Option String
  hello_line (started pid) = some ("  → Started  (pid " ++ (show_nat pid ++ ")"))
  hello_line (exited code reason) = some ("  → Exited   (code " ++ (show_int code ++ ")\n"))
  hello_line (stdout_chunk seq bytes) = none
  hello_line (stderr_chunk seq bytes) = none

  -- the callback of examples/cancel.rs
  unfoldable pub cancel_line : Event → Option String
  unfolding debug_reason
  cancel_line (started pid) = some ("  → Started  (pid " ++ (show_nat pid ++ ")"))
  cancel_line (exited code reason) =
      some
        ("  → Exited   (code " ++ (show_int code ++ (", reason " ++ (debug_reason reason ++ ")"))))
  cancel_line (stdout_chunk seq bytes) = none
  cancel_line (stderr_chunk seq bytes) = none

  -- `main` of examples/hello.rs, on what its run has shown and returned; the `?` returns the error
  unfoldable pub hello_main :
      List Event → Result (Unit {0}) (AerError E) → List String × Result (Unit {0}) (AerError E)
  unfolding hello_line printed
  hello_main events result =
      let out = printed hello_line events ("Spawning task...\n" ∷ []) in
      elim result [ ok _ ↦ ("Done." ∷ out, ok tt) | err e ↦ (out, err e) ]

  -- the `match` on the result at the end of examples/cancel.rs
  unfoldable pub cancel_verdict : Result (Unit {0}) (AerError E) → String
  cancel_verdict (err AerError.cancelled) =
      "\nrun_with_cancel returned Err(Cancelled) — as expected."
  cancel_verdict other = "\nunexpected result: " ++ debug_result other

  -- `main` of examples/cancel.rs, less the line of its cancelling thread
  unfoldable pub cancel_main : List Event → Result (Unit {0}) (AerError E) → List String
  unfolding cancel_verdict cancel_line printed
  cancel_main events result =
      cancel_verdict result
      ∷ printed cancel_line events
          ("Spawning long-running process (will be cancelled in ~1 s)...\n" ∷ [])

  -- the two `match`es of examples/timeout.rs
  unfoldable pub slow_verdict : Result (Unit {0}) (AerError E) → String
  slow_verdict (err AerError.timed_out) = "  → TimedOut\n"
  slow_verdict other = "  unexpected result: " ++ (debug_result other ++ "\n")

  unfoldable pub fast_verdict : Result (Unit {0}) (AerError E) → String
  fast_verdict (ok u) = "  → Completed normally"
  fast_verdict (err e) = "  unexpected result: " ++ debug_result (err e)

  -- `main` of examples/timeout.rs, on its two runs
  unfoldable pub timeout_main :
      List Event
      → Result (Unit {0}) (AerError E)
      → List Event
      → Result (Unit {0}) (AerError E)
      → List String
  unfolding slow_verdict fast_verdict line printed
  timeout_main slow_events slow_result fast_events fast_result =
      let first =
        slow_verdict slow_result
        ∷ printed line slow_events ("=== Process outlives timeout (2 s) ===\n" ∷ []) in
      fast_verdict fast_result
      ∷ printed line fast_events ("=== Process exits before timeout (30 s) ===\n" ∷ first)

  -- `main` of examples/tree.rs; an error is the panic of `expect`
  unfoldable pub tree_main :
      List Event → Result (Unit {0}) (AerError E) → List String × Result (Unit {0}) (AerError E)
  unfolding line printed
  tree_main events result =
      let out = printed line events (
        "AER guarantees the entire process tree is dead when run() returns.\n"
        ∷ "The root exits immediately; without AER the child would be an orphan."
        ∷ "Spawning a process that forks a long-lived background child...\n" ∷ []) in
      elim result [
        | ok _ ↦ ("\nDone. Background child is gone — no orphans." ∷ out, ok tt)
        | err e ↦ (out, err e)
      ]
