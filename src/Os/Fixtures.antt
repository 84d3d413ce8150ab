-- ===== src/Os/Fixtures.antt =====
-- Systems for the tests of src/os/ and src/ffi.rs.
use text.Mathlib.Text.{◌==◌}
use aer_core.Base.{ℕ, ◌+◌, true, false, refl, none, some, [], ok, err, pos, leb, if◌then◌else◌}
use aer_core.Os.Command.{
  CommandCall, program, args, stdin_null, stdout_piped, stderr_piped, env_clear, env, current_dir,
  Environment, UnixCommandLaws,
}
use aer_core.Os.Unix
use aer_core.Os.Unix.{esrch}
use aer_core.Os.Windows

-- The methods of `Command` as std documents them.
abbrev pub documented : CommandCall → Environment → Environment
documented (program p) e = e
documented (args l) e = e
documented stdin_null e = e
documented stdout_piped e = e
documented stderr_piped e = e
documented env_clear e = λ j. none
documented (env k v) e = λ j. if k == j then some v else e j
documented (current_dir p) e = e

pub documented-UnixCommandLaws : UnixCommandLaws documented
documented-UnixCommandLaws = record {
  apply-env_clear = λ e j. refl;
  apply-env = λ e k v j. refl;
  apply-program = λ e p j. refl;
  apply-args = λ e l j. refl;
  apply-stdin = λ e j. refl;
  apply-stdout = λ e j. refl;
  apply-stderr = λ e j. refl;
  apply-current_dir = λ e p j. refl;
}

-- The state is the time.
abbrev pub dies_at : ℕ → Unix.System ℕ
dies_at limit = record {
  killpg = λ k sig w. (if leb limit w then some esrch else none, w);
  kill = λ k sig w. (if leb limit w then some esrch else none, w);
  now = λ w. (w, w);
  sleep = λ d w. w + d;
  setsid = λ w. (none, w);
  waitpid = λ k w. w;
  spawn_child = λ calls pre_exec w. (elim (pre_exec w).0 [ ok u ↦ ok 7 | err e ↦ err e ], w);
  child_wait = λ child w. (ok (some (pos 0)), w);
}

abbrev pub start : Unix.World ℕ
start = record { state = 0; sent = [] }

-- The assignment to the job fails; nothing else does. Jobs, children and errors are numbers.
abbrev pub unassignable : Windows.Api ℕ ℕ ℕ
unassignable = record {
  create_job = λ w. (some 5, w);
  set_limit = λ j w. (true, w);
  assign = λ j c w. (false, w);
  terminate = λ j w. (true, w);
  active_processes = λ j w. (some w, w);
  close = λ j w. w;
  last_os_error = λ w. 87;
  spawn_child = λ calls w. (ok 9, w + 1);
  child_id = λ c. c;
  child_kill = λ c w. w;
  child_wait = λ c w. (ok none, 0);
}

abbrev pub idle : Windows.World ℕ ℕ
idle = record { state = 0; calls = []; refs = λ j. 0 }
