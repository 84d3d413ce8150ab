-- ===== src/Run/Fixtures.antt =====
-- Concrete tasks, answers and outcomes for the tests of runs of src/task.rs.
use aer_core.Base.{ℕ, pos, String, Bool, true, false, none, some, List, [], ◌∷◌, ok, err}
use aer_core.Error.{AerError}
use aer_core.Os.{OsHandle, ChunkMsg}
use aer_core.Task.{Task, CancelHandle}
use aer_core.Run.System.{Outcome, returned, Answer}
use aer_core.Run.Completion.{unused}

abbrev pub no_error : String → ℕ
no_error message = 0

abbrev pub echo : Task
echo = record {
  program = "echo";
  args = "hi" ∷ [];
  timeout = none;
  capture_output = false;
  env = [];
  clear_env = false;
  cwd = none;
}

abbrev pub captured : Task
captured = record echo { capture_output = true }

abbrev pub child : OsHandle ℕ
child = record { pid = 7; kill = 7 }

abbrev pub output : List ChunkMsg
output = ChunkMsg.stdout 0 (104 ∷ 105 ∷ []) ∷ ChunkMsg.stderr 0 (33 ∷ []) ∷ []

abbrev pub fresh : CancelHandle ℕ
fresh = unused none false

-- The process is alive when it is probed, and then ends with exit code 0.
abbrev pub answer : Bool → Answer ℕ ℕ
answer alive = record {
  panics = false;
  alive = alive;
  spawn = ok child;
  message = none;
  wait = some (ok (pos 0));
}

abbrev pub success : Outcome ℕ
success = returned (ok tt)

abbrev pub cancellation : Outcome ℕ
cancellation = returned (err AerError.cancelled)
