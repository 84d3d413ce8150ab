-- ===== src/Run/Direct/Examples.antt =====
-- Sequential runs of src/task.rs, on a Unix system whose `wait` fails, as it does with ECHILD, and on
-- a Windows system.
use aer_core.Base.{
  if◌then◌else◌, ◌==◌, false, ℕ, true, false, ◌≡◌, refl, ◌+◌, ◌^◌, none, some, List, [], ◌∷◌, ok,
  err, arith,
}
use aer_core.Os.{OsHandle}
use aer_core.Os.Unix.{
  Errno, errno, System, World, kill_escalating, poll, deliver, tree_alive, wait, reap_abandoned,
  spawn,
}
use aer_core.Os.Unix.Escalation.{ClockLaws}
use aer_core.Os.Unix.Process.{unix_process}
use aer_core.Task.{CancelHandle, kill_grace}
use aer_core.Run.System.{Call, Caller}
use aer_core.Run.Fixtures.{echo, output}
use aer_core.Run.Direct.{Finished, spawn_options, run_direct}
use aer_core.Run.Direct.Simulation.{simple}
use aer_core.Os.Fixtures.{unassignable, idle}
use aer_core.Os.Windows
use aer_core.Os.Windows.{Api}
use aer_core.Os.Windows.Process.{windows_process}
use aer_core.Run.Direct.Sweep.{ReturnsSwept}
use aer_core.Run.Direct.Group.{GroupKilled, run_direct-GroupKilled}
use aer_core.Run.Direct.Handles.{ReturnsSettled, run_direct-ReturnsSettled}
use aer_core.Run.Direct.Job.{JobTerminated, run_direct-JobTerminated}

-- The state is the time.
abbrev childless : System ℕ
childless = record {
  killpg = λ k sig w. (none, w);
  kill = λ k sig w. (none, w);
  now = λ w. (w, w);
  sleep = λ d w. w + d + 10 ^ 10;  -- it may take longer than asked
  setsid = λ w. (none, w);
  waitpid = λ k w. w;
  spawn_child = λ calls pre_exec w. (ok 7, w);
  child_wait = λ child w. (err (errno 10), w);
}

childless-ClockLaws : ClockLaws childless (λ w. w)
childless-ClockLaws = record {
  clock-killpg = λ k sig w. omega arith;
  clock-kill = λ k sig w. omega arith;
  now_reads = λ w. (omega arith, omega arith);
  clock-sleep = λ d w. omega arith;
}

abbrev start : World ℕ
start = record { state = 0; sent = [] }

-- A handle on which `cancel` was called before the run.
abbrev cancelled_handle : CancelHandle ℕ
cancelled_handle = record { cancelled = true; kill_fired = false; kill = none; poisoned = false }

-- The chunks of Run/Fixtures.antt arrive; the cancel handle is the one above.
abbrev run : Finished (World ℕ) ℕ Errno
run = run_direct (unix_process childless) (simple true echo) true output cancelled_handle start

abbrev calls_of : {W : Type 0} → Finished W ℕ Errno → List (Call ℕ)
calls_of none = []
calls_of (some (result, s)) = s.calls

-- The process is killed because of the cancel, `wait` fails, and the guard kills again and reaps.
calls :
    calls_of run
    ≡ Call.reap_abandoned 7
      ∷ Call.kill_escalating Caller.guard 7 0
      ∷ Call.kill_escalating Caller.runner 7 kill_grace
      ∷ Call.tree_alive Caller.runner 7 true
      ∷ Call.spawned 7
      ∷ []
unfolding run_direct spawn wait kill_escalating poll deliver tree_alive reap_abandoned
calls = refl

abbrev root : OsHandle ℕ
root = record { pid = 7; kill = 7 }

started_root : spawn childless "echo" ("hi" ∷ []) (spawn_options echo) start ≡ (ok (root, 7), start)
unfolding spawn
started_root = refl

run_direct-GroupKilled_example : ReturnsSwept (GroupKilled 7) run
run_direct-GroupKilled_example =
    run_direct-GroupKilled childless (λ w. w) childless-ClockLaws echo output true true
      cancelled_handle start start root 7 started_root

-- A Windows system on which every call succeeds.
abbrev assignable : Api ℕ ℕ ℕ
assignable = record unassignable { assign = λ j c w. (true, w) }

abbrev in_job : OsHandle ℕ
in_job = record { pid = 9; kill = 5 }

abbrev spawned : Windows.World ℕ ℕ
spawned = record {
  state = 1;
  calls = Windows.assigned 5 9 ∷ Windows.spawned 9 ∷ Windows.limited 5 ∷ Windows.created 5 ∷ [];
  refs = λ j. if 5 == j then 1 else 0;
}

started_in_job :
    Windows.spawn assignable "echo" ("hi" ∷ []) (spawn_options echo) idle
    ≡ (ok (in_job, 9), spawned)
unfolding Windows.spawn
started_in_job = refl

run_direct-JobTerminated_example :
    ReturnsSwept
      (JobTerminated assignable 5)
      (run_direct (windows_process assignable) (simple false echo) true [] cancelled_handle idle)
run_direct-JobTerminated_example =
    run_direct-JobTerminated assignable 87 echo [] false true cancelled_handle idle spawned in_job 9
      started_in_job

run_direct-ReturnsSettled_example :
    ReturnsSettled true 5 0
      (run_direct (windows_process assignable) (simple false echo) true [] cancelled_handle idle)
run_direct-ReturnsSettled_example =
    run_direct-ReturnsSettled assignable echo [] false true cancelled_handle idle spawned in_job 9
      refl started_in_job
