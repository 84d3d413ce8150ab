-- ===== src/Os/Windows/Process.antt =====
-- `impl OsProcess for WindowsProcess` of src/os/windows.rs. A `KillHandle` is the job's HANDLE.
use aer_core.Base.{ℕ, ℤ, String, ◌≡◌, refl, Option, none, some, List, Result, ok, err, if_cases}
use aer_core.Error.{spawn_failed, wait_failed}
use aer_core.Os.{OsHandle, SpawnOptions}
use aer_core.Os.Command.{CommandCall}
use aer_core.Os.Process.{OsProcess, OsProcessLaws, FailsWith}
use aer_core.Os.Windows.{
  Api, World, Reply, assign_child, spawn_in, limit_job, spawn, wait, kill_escalating, tree_alive,
  reap_abandoned, clone_job, drop_job,
}

module _ {W C E : Type 0} (api : Api W C E) where
  abbrev pub windows_process : OsProcess (World W C) ℕ C E
  windows_process = record {
    spawn = spawn api;
    wait = wait api;
    kill_escalating = λ job grace w. some (kill_escalating api job grace w);
    tree_alive = tree_alive api;
    reap_abandoned = reap_abandoned api;
    clone = clone_job api;
    drop = drop_job api;
  }

  abbrev SpawnFails : Reply W C E (OsHandle ℕ × C) → Type 0
  SpawnFails r = FailsWith spawn_failed r.0

  assign_child-SpawnFails :
      (job : ℕ) (child : C) (w : World W C) → SpawnFails (assign_child api job child w)
  unfolding assign_child
  assign_child-SpawnFails job child w =
      if_cases SpawnFails (api.assign job child w.state).0 tt (_, refl)

  spawn_in-SpawnFails :
      (job : ℕ) (command : List CommandCall) (w : World W C)
      → SpawnFails (spawn_in api job command w)
  unfolding spawn_in
  spawn_in-SpawnFails job command w = go (api.spawn_child command w.state).0 refl
    where
      go :
          (r : Result C E)
          → (api.spawn_child command w.state).0 ≡ r
          → SpawnFails (spawn_in api job command w)
      go (ok child) e = rw (e, spawn_in) (assign_child-SpawnFails job child _)
      go (err io) e = rw (e, spawn_in) (io, refl)

  limit_job-SpawnFails :
      (job : ℕ) (command : List CommandCall) (w : World W C)
      → SpawnFails (limit_job api job command w)
  unfolding limit_job
  limit_job-SpawnFails job command w =
      if_cases SpawnFails (api.set_limit job w.state).0 (spawn_in-SpawnFails job command _)
        (_, refl)

  spawn-SpawnFails :
      (program : String) (args : List String) (options : SpawnOptions) (w : World W C)
      → SpawnFails (spawn api program args options w)
  unfolding spawn
  spawn-SpawnFails program args options w = go (api.create_job w.state).0 refl
    where
      go :
          (r : Option ℕ)
          → (api.create_job w.state).0 ≡ r
          → SpawnFails (spawn api program args options w)
      go none e = rw (e, spawn) (_, refl)
      go (some job) e = rw (e, spawn) (limit_job-SpawnFails job _ _)

  wait-WaitFails :
      (child : C) (job : ℕ) (w : World W C) → FailsWith wait_failed (wait api child job w).0
  unfolding wait
  wait-WaitFails child job w = go (api.child_wait child w.state).0 refl
    where
      go :
          (r : Result (Option ℤ) E)
          → (api.child_wait child w.state).0 ≡ r
          → FailsWith wait_failed (wait api child job w).0
      go (ok none) e = rw (e, FailsWith, wait) tt
      go (ok (some code)) e = rw (e, FailsWith, wait) tt
      go (err io) e = rw (e, FailsWith, wait) (io, refl)

  pub windows_process-OsProcessLaws : OsProcessLaws windows_process
  windows_process-OsProcessLaws = record {
    spawn-FailsWith = spawn-SpawnFails;
    wait-FailsWith = wait-WaitFails;
    kill_escalating_returns = λ job grace w e. cc;
  }
