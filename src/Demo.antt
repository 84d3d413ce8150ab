-- ===== src/Demo.antt =====
-- The example programs of examples/: here those that collect output, with their tasks and what their
-- callbacks keep. A program is built for Windows or for Unix.
pub mod Capture
pub mod Env
pub mod Programs
mod Outputs
mod Silent
mod Cancel
mod Timeout
mod Hello
mod Examples
mod Runs
use aer_core.Base.{ℕ, String, Bool, Option, List, [], ◌∷◌, ◌++◌, if◌then◌else◌}
use aer_core.Task.{Task, new, with_capture_output, with_env, with_cwd}
use aer_core.Event.{Event, started, exited, stdout_chunk, stderr_chunk}

-- `stdout_buf` and `stderr_buf` of examples/capture.rs
pub record Buffers : Type 0 where
  pub stdout_buf : List ℕ
  pub stderr_buf : List ℕ

abbrev pub empty : Buffers
empty = record { stdout_buf = []; stderr_buf = [] }

-- the callback of examples/capture.rs
unfoldable pub on_event : Event → Buffers → Buffers
on_event (started pid) b = b
on_event (stdout_chunk seq bytes) b = record b { stdout_buf = b.stdout_buf ++ bytes }
on_event (stderr_chunk seq bytes) b = record b { stderr_buf = b.stderr_buf ++ bytes }
on_event (exited code reason) b = b

-- What the callback has collected from these events, oldest first.
unfoldable pub collect : List Event → Buffers → Buffers
unfolding on_event
collect [] b = b
collect (e ∷ l) b = collect l (on_event e b)

-- the task of examples/capture.rs
unfoldable pub capture_task : (windows : Bool) → Task
unfolding new with_capture_output
capture_task windows =
    with_capture_output
      (if windows
        then new "cmd" (
            "/c"
            ∷ "(echo stdout line 1) & (echo stderr line 1 1>&2) & (echo stdout line 2) & (echo stderr line 2 1>&2) & (echo stdout line 3)"
            ∷ [])
        else new "sh" (
            "-c"
            ∷ "echo 'stdout line 1'; echo 'stderr line 1' >&2; echo 'stdout line 2'; echo 'stderr line 2' >&2; echo 'stdout line 3'"
            ∷ []))
      Bool.true

-- the callback of examples/env.rs, which keeps the bytes of stdout alone
unfoldable pub env_on_event : Event → List ℕ → List ℕ
env_on_event (stdout_chunk seq bytes) stdout_buf = stdout_buf ++ bytes
env_on_event (stderr_chunk seq bytes) stdout_buf = stdout_buf
env_on_event (started pid) stdout_buf = stdout_buf
env_on_event (exited code reason) stdout_buf = stdout_buf

unfoldable pub env_collect : List Event → List ℕ → List ℕ
unfolding env_on_event
env_collect [] stdout_buf = stdout_buf
env_collect (e ∷ l) stdout_buf = env_collect l (env_on_event e stdout_buf)

-- the task of examples/env.rs; `temp_dir` is what `env::temp_dir` answers
unfoldable pub env_task : (windows : Bool) → (temp_dir : String) → Task
unfolding new with_env with_cwd with_capture_output
env_task windows temp_dir =
    with_capture_output
      (with_cwd
        (with_env
          (if windows
            then new "cmd" ("/c" ∷ "echo %AER_EXAMPLE_VAR% & cd" ∷ [])
            else new "sh" ("-c" ∷ "echo $AER_EXAMPLE_VAR; pwd" ∷ []))
          "AER_EXAMPLE_VAR" "hello_from_aer")
        temp_dir)
      Bool.true
