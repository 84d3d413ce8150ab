-- ===== src/Task.antt =====
-- src/task.rs: the configuration of a task, its builder methods, and the shared cancel handle.
-- A `Duration` is its number of nanoseconds.
pub mod Env
mod Examples
use text.Mathlib.Text.{◌==◌}
use aer_core.Base.{
  ℕ, ◌*◌, ◌^◌, String, Bool, true, false, Option, none, some, List, [], ◌∷◌, if◌then◌else◌,
}

-- `KILL_GRACE`, five seconds
abbrev pub kill_grace : ℕ
kill_grace = 5 * 10 ^ 9

-- `struct Task`
pub record Task : Type 0 where
  pub program : String
  pub args : List String
  pub timeout : Option ℕ
  pub capture_output : Bool
  pub env : List (String × String)
  pub clear_env : Bool
  pub cwd : Option String

-- `Task::new`
unfoldable pub new : String → List String → Task
new program args = record {
  program = program;
  args = args;
  timeout = none;
  capture_output = false;
  env = [];
  clear_env = false;
  cwd = none;
}

-- `Task::with_timeout`
unfoldable pub with_timeout : Task → ℕ → Task
with_timeout t timeout = record t { timeout = some timeout }

-- `Task::with_capture_output`
unfoldable pub with_capture_output : Task → Bool → Task
with_capture_output t capture = record t { capture_output = capture }

-- the loop of `with_env`: `find` the first entry of the key, overwrite it or push at the end
unfoldable pub set_entry : String → String → List (String × String) → List (String × String)
set_entry key value [] = (key, value) ∷ []
set_entry key value ((k, v) ∷ env) =
    if k == key then (k, value) ∷ env else (k, v) ∷ set_entry key value env

-- `Task::with_env`
unfoldable pub with_env : Task → String → String → Task
with_env t key value = record t { env = set_entry key value t.env }

-- `Task::with_clear_env`
unfoldable pub with_clear_env : Task → Bool → Task
with_clear_env t clear = record t { clear_env = clear }

-- `Task::with_cwd`
unfoldable pub with_cwd : Task → String → Task
with_cwd t path = record t { cwd = some path }

-- `struct CancelHandle`: the contents of its shared cells, and whether a panic has poisoned the
-- mutex. Clones of a handle share the cells, so one record stands for all of them.
pub record CancelHandle {ℓ} (K : Type ℓ) : Type ℓ where
  pub cancelled : Bool
  pub kill_fired : Bool
  pub kill : Option K
  pub poisoned : Bool

-- `CancelHandle::new`
unfoldable pub new_handle {ℓ} : (K : Type ℓ) → CancelHandle K
new_handle K = record { cancelled = false; kill_fired = false; kill = none; poisoned = false }

-- `CancelHandle::is_cancelled`
unfoldable pub is_cancelled {ℓ} : {K : Type ℓ} → CancelHandle K → Bool
is_cancelled h = h.cancelled
