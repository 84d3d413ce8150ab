-- ===== src/Demo/Env.antt =====
-- examples/env.rs: what its child sees, and what it collects.
use text.Mathlib.Text.{◌==◌}
use aer_core.Base.{
  String, Bool, true, false, ◌≡◌, refl, ◌∙◌, Option, none, some, List, [], ◌∷◌, if◌then◌else◌,
}
use aer_core.Event.{Event, started, exited, stdout_chunk, stderr_chunk}
use aer_core.Task.{new, set_entry, with_env, with_cwd, with_capture_output}
use aer_core.Task.Env.{get_entry}
use aer_core.Os.Command.{
  CommandCall, command_calls, Environment, UnixCommandLaws, apply_calls, or_else, child_environment,
}
use aer_core.Run.Direct.{spawn_options}
use aer_core.Demo.{Buffers, on_event, collect, env_on_event, env_collect, env_task}

-- The callback keeps of the events what the callback of examples/capture.rs keeps as stdout.
pub env_collect-collect :
    (l : List Event) (b : Buffers) → env_collect l b.stdout_buf ≡ (collect l b).stdout_buf
unfolding env_collect env_on_event collect on_event
env_collect-collect [] b = refl
env_collect-collect (started pid ∷ l) b = env_collect-collect l b
env_collect-collect (exited code reason ∷ l) b = env_collect-collect l b
env_collect-collect (stdout_chunk seq bytes ∷ l) b =
    env_collect-collect l (on_event (stdout_chunk seq bytes) b)
env_collect-collect (stderr_chunk seq bytes ∷ l) b =
    env_collect-collect l (on_event (stderr_chunk seq bytes) b)

or_else-if :
    {A : Type 0} (b : Bool) (v : A) (d : Option A)
    → or_else (if b then some v else none) d ≡ (if b then some v else d)
or_else-if true v d = refl
or_else-if false v d = refl

-- On Unix, if std's `Command` behaves as documented, the child sees the variable that the example sets, and
-- every other variable as the parent has it.
env_task-environment :
    (apply : CommandCall → Environment → Environment)
    → UnixCommandLaws apply
    → (temp_dir : String) (parent : Environment) (j : String)
    → let t = env_task false temp_dir in
      apply_calls apply (command_calls t.program t.args (spawn_options t)) parent j
      ≡ (if "AER_EXAMPLE_VAR" == j then some "hello_from_aer" else parent j)
unfolding env_task new with_env with_cwd with_capture_output set_entry spawn_options get_entry
env_task-environment apply laws temp_dir parent j =
    child_environment apply laws _ _ (spawn_options (env_task false temp_dir)) (refl, tt) parent j
    ∙ or_else-if ("AER_EXAMPLE_VAR" == j) "hello_from_aer" (parent j)
