-- ===== src/Ffi/Examples.antt =====
-- The C interface of src/ffi.rs at concrete calls. Every `String` is taken for valid UTF-8, except
-- the one that stands for bytes that are not.
use text.Mathlib.Text.{◌==◌}
use aer_core.Base.{
  ℕ, zero, suc, true, String, false, ◌≡◌, ◌↔◌, refl, Option, none, some, List, [], ◌∷◌,
  if◌then◌else◌,
}
use aer_core.Task.{Task, new, with_env, set_entry, with_clear_env}
use aer_core.Event.{stdout_chunk}
use aer_core.Run.System.{Outcome, panicked, Pc, System, init}
use aer_core.Run.Runner.{runner_step}
use aer_core.Run.Schedule.{Turn, turn_step, execute, here, execute-Reach}
use aer_core.Run.Completion.{repeat}
use aer_core.Run.Fixtures.{no_error, echo, fresh, answer, success}
use aer_core.Ffi.Agreement.{Agrees, task_run-Agrees}
use aer_core.Ffi.Run.{aer_task_run}
use aer_core.Ffi.Codes.{AerErrorCode}
use aer_core.Ffi.Handles.{AerTask, is_invalid_key}
use aer_core.Ffi.Create.{aer_task_new, IsMadeFrom, aer_task_new_iff}
use aer_core.Ffi.Events.{c_event, read_event, read_event-c_event}
use aer_core.Ffi.Frozen.{FfiCall, call, calls, HandleUse, apply_uses, HasRun, run_once}
use aer_core.Os.Command.{Environment, apply_calls, command_calls}
use aer_core.Os.Fixtures.{documented, documented-UnixCommandLaws}
use aer_core.Run.Direct.{spawn_options}
use aer_core.Ffi.Builder.{built, last_message, calls-built}
use aer_core.Ffi.ChildEnv.{requested, child_of_calls}
use aer_core.Ffi.Keys.{IsSound, calls_keep_keys}

abbrev text_of : String → Option String
text_of s = if s == "invalid" then none else some s

abbrev argv : ℕ → Option String
argv zero = some "-c"
argv (suc zero) = some "true"
argv (suc (suc i)) = none

abbrev shell : AerTask ℕ
shell = record {
  inner = some (record {
    program = "sh";
    args = "-c" ∷ "true" ∷ [];
    timeout = none;
    capture_output = false;
    env = [];
    clear_env = false;
    cwd = none;
  });
  has_run = false;
  cancel = none;
}

shell_new : aer_task_new text_of (some "sh") (some argv) 2 ≡ some shell
unfolding aer_task_new new
shell_new = refl

null_argument : aer_task_new text_of {H = ℕ} (some "sh") (some argv) 3 ≡ none
unfolding aer_task_new
null_argument = refl

aer_task_new_iff_example :
    (aer_task_new text_of (some "sh") (some argv) 2 ≡ some shell)
    ↔ IsMadeFrom text_of (some "sh") (some argv) 2 shell
aer_task_new_iff_example = aer_task_new_iff text_of (some "sh") (some argv) 2 shell

read_event-c_event_example :
    read_event (c_event (stdout_chunk 3 (104 ∷ 105 ∷ []))) ≡ some (stdout_chunk 3 (104 ∷ 105 ∷ []))
read_event-c_event_example = read_event-c_event (stdout_chunk 3 (104 ∷ 105 ∷ []))

-- A run that panics.
abbrev panics : Task → Option ℕ → Outcome ℕ
panics t cancel = panicked

abbrev show_number : ℕ → String
show_number n = "os error"

-- After the run: a new cancel handle, and a second run.
abbrev later_uses : List (HandleUse String ℕ)
later_uses = HandleUse.make_cancel_handle 5 ∷ HandleUse.returning FfiCall.run ∷ []

run_once_example :
    let r = call text_of some show_number (some "boom") panics FfiCall.run (some shell) none in
    let (task, left) =
      apply_uses text_of some show_number (some "boom") panics later_uses r.1 r.2 in
    HasRun shell.inner task
    × (left ≡ r.2)
    × (call text_of some show_number (some "boom") panics (FfiCall.set_env "A" "1") task left
        ≡ (AerErrorCode.already_run, task, left))
run_once_example =
    run_once text_of some show_number (some "boom") panics later_uses (FfiCall.set_env "A" "1")
      shell none

abbrev requests : List (HandleUse String ℕ)
requests =
    HandleUse.returning (FfiCall.set_env "LANG" "C")
    ∷ HandleUse.returning (FfiCall.set_env "A=B" "1")
    ∷ HandleUse.make_cancel_handle 5
    ∷ HandleUse.returning FfiCall.run
    ∷ HandleUse.returning (FfiCall.set_env "LANG" "en")
    ∷ []

calls_keep_keys_example :
    IsSound
      (apply_uses text_of some show_number none panics requests
        (aer_task_new text_of (some "sh") (some argv) 2)
        none).0
calls_keep_keys_example =
    calls_keep_keys text_of some show_number none panics (some "sh") (some argv) 2 requests none

-- A run of `echo`, which exits by itself.
abbrev finished : System ℕ ℕ
finished = execute no_error echo true (repeat 25 (Turn.runner, answer true) []) (init ℕ fresh)

finished-ended : finished.runner ≡ Pc.ended success
unfolding execute turn_step runner_step init
finished-ended = refl

abbrev unused_handle : AerTask ℕ
unused_handle = record { inner = some echo; has_run = false; cancel = some 0 }

task_run-Agrees_example :
    Agrees
      (aer_task_run some show_number none (λ _ _. success) (some unused_handle) none).0
      finished.events
task_run-Agrees_example =
    task_run-Agrees some show_number none no_error true fresh finished success echo (some 0) none
      (execute-Reach no_error echo true (repeat 25 (Turn.runner, answer true) []) (init ℕ fresh)
        (init ℕ fresh) here)
      finished-ended

-- The setters of a C program, the second of them refused.
abbrev setters : List (FfiCall String)
setters =
    FfiCall.set_env "LANG" "C"
    ∷ FfiCall.set_env "A=B" "1"
    ∷ FfiCall.set_clear_env true
    ∷ FfiCall.set_env "LANG" "en"
    ∷ []

calls-built_example :
    calls text_of some show_number none panics setters
      (some (record { inner = some echo; has_run = false; cancel = none }))
      (some "earlier")
    ≡ (
      some (record { inner = some (built text_of setters echo); has_run = false; cancel = none }),
      last_message text_of setters (some "earlier"),
    )
calls-built_example =
    calls-built text_of some show_number none panics setters echo none (some "earlier") tt

-- What the setters come to: one entry, with its last value.
built_env : (built text_of setters echo).env ≡ ("LANG", "en") ∷ []
unfolding with_env set_entry with_clear_env is_invalid_key
built_env = refl

abbrev parent : Environment
parent j = some "inherited"

child_of_calls_example :
    (task : Task) × ((calls text_of some show_number none panics setters (some shell) none).0
      ≡ some (record { inner = some task; has_run = false; cancel = none }))
    × (apply_calls documented
          (command_calls task.program task.args (spawn_options task))
          parent
          "LANG"
        ≡ requested text_of setters parent "LANG")
child_of_calls_example =
    child_of_calls text_of documented documented-UnixCommandLaws some show_number none panics
      (some "sh") (some argv) 2 shell shell_new setters none tt parent "LANG"

requested_env :
    (requested text_of setters parent "LANG" ≡ some "en")
    × (requested text_of setters parent "HOME" ≡ none)
unfolding is_invalid_key
requested_env = (refl, refl)
