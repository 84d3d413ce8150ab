-- ===== src/Os/Windows.antt =====
-- src/os/windows.rs: a process in a job object. The Windows functions and std's `Command` and
-- `Child` are parameters over an unknown state `W`; the model adds the list of the calls made and the
-- strong counts of the `Arc`s around jobs. A job's HANDLE is a number, `C` a child and `E` is
-- `io::Error`.
pub mod Handles
pub mod Jobs
pub mod Process
mod Examples
use aer_core.Base.{
  ◌+◌, ◌-◌, ◌==◌, update, ℕ, ℤ, negsuc, String, Bool, true, false, Option, none, some, List, ◌∷◌,
  Result, ok, err, ltb, if◌then◌else◌,
}
use aer_core.Error.{AerError, spawn_failed, wait_failed, kill_failed}
use aer_core.Os.{OsHandle, SpawnOptions}
use aer_core.Os.Command.{CommandCall, command_calls}

-- `CreateJobObjectW` (`none` for NULL), `SetInformationJobObject` with KILL_ON_JOB_CLOSE,
-- `AssignProcessToJobObject`, `TerminateJobObject`, `QueryInformationJobObject` for the number of
-- active processes (`none` if it fails), `CloseHandle` and `GetLastError`; and `Command::spawn`,
-- `Child::id`, `Child::kill` and `Child::wait`.
pub record Api (W C E : Type 0) : Type 0 where
  pub create_job : W → Option ℕ × W
  pub set_limit : ℕ → W → Bool × W
  pub assign : ℕ → C → W → Bool × W
  pub terminate : ℕ → W → Bool × W
  pub active_processes : ℕ → W → Option ℕ × W
  pub close : ℕ → W → W
  pub last_os_error : W → E
  pub spawn_child : List CommandCall → W → Result C E × W
  pub child_id : C → ℕ
  pub child_kill : C → W → W
  pub child_wait : C → W → Result (Option ℤ) E × W

-- The calls, by what they have done, newest first. `refused` is a `TerminateJobObject` that failed,
-- and `reaped` is a kill and a wait.
pub data JobCall (C : Type 0) : Type 0 where
  created limited terminated refused closed : ℕ → JobCall C
  spawned reaped : C → JobCall C
  assigned : ℕ → C → JobCall C

pub record World (W C : Type 0) : Type 0 where
  pub state : W
  pub calls : List (JobCall C)
  pub refs : ℕ → ℕ

-- What a call returns, beside the world that it leaves.
abbrev pub Reply : (W C E A : Type 0) → Type 0
Reply W C E A = Result A (AerError E) × World W C

module _ {W C E : Type 0} (api : Api W C E) where
  abbrev after : World W C → W → JobCall C → World W C
  after w state call = record w { state = state; calls = call ∷ w.calls }

  abbrev at : World W C → W → World W C
  at w state = record w { state = state }

  -- `Drop for JobHandle`
  unfoldable pub close_job : ℕ → World W C → World W C
  close_job job w = after w (api.close job w.state) (JobCall.closed job)

  -- the clone and the drop of an `Arc<JobHandle>`; the last drop is that of the `JobHandle`
  unfoldable pub clone_job : ℕ → World W C → World W C
  clone_job job w = record w { refs = update w.refs job (w.refs job + 1) }

  unfoldable pub drop_job : ℕ → World W C → World W C
  unfolding close_job
  drop_job job w =
      let w' = record w { refs = update w.refs job (w.refs job - 1) } in
      if w.refs job == 1 then close_job job w' else w'

  -- The kill and the wait for a child that is in no job.
  unfoldable pub reap_child : C → World W C → World W C
  reap_child child w =
      after w (api.child_wait child (api.child_kill child w.state)).1 (JobCall.reaped child)

  assign_child : ℕ → C → World W C → Reply W C E (OsHandle ℕ × C)
  unfolding drop_job reap_child
  assign_child job child w =
      let (done, state) = api.assign job child w.state in
      if done
      then (
        ok (record { pid = api.child_id child; kill = job }, child),
        after w state (JobCall.assigned job child),
      )
      else (
        err (spawn_failed (api.last_os_error state)),
        drop_job job (reap_child child (at w state)),
      )

  spawn_in : ℕ → List CommandCall → World W C → Reply W C E (OsHandle ℕ × C)
  unfolding assign_child drop_job
  spawn_in job command w =
      let (result, state) = api.spawn_child command w.state in
      elim result [
        | err e ↦ (err (spawn_failed e), drop_job job (at w state))
        | ok child ↦ assign_child job child (after w state (JobCall.spawned child))
      ]

  limit_job : ℕ → List CommandCall → World W C → Reply W C E (OsHandle ℕ × C)
  unfolding spawn_in drop_job
  limit_job job command w =
      let (done, state) = api.set_limit job w.state in
      if done
      then spawn_in job command (after w state (JobCall.limited job))
      else (err (spawn_failed (api.last_os_error state)), drop_job job (at w state))

  -- `spawn`; the child stands beside its handle
  unfoldable pub spawn :
      String → List String → SpawnOptions → World W C → Reply W C E (OsHandle ℕ × C)
  unfolding limit_job
  spawn program args options w =
      let (raw_job, state) = api.create_job w.state in
      elim raw_job [
        | none ↦ (err (spawn_failed (api.last_os_error state)), at w state)
        | some job ↦
            limit_job job (command_calls program args options)
              (record (after w state (JobCall.created job)) { refs = update w.refs job 1 })
      ]

  -- `TerminateJobObject`
  unfoldable pub terminate_job : ℕ → World W C → Bool × World W C
  terminate_job job w =
      let (done, state) = api.terminate job w.state in
      (done, after w state (if done then JobCall.terminated job else JobCall.refused job))

  -- `wait`, less its drain threads; it drops the handle's clone on every way out
  unfoldable pub wait : C → ℕ → World W C → Reply W C E ℤ
  unfolding terminate_job drop_job
  wait child job w =
      let (result, state) = api.child_wait child w.state in
      elim result [
        | err e ↦ (err (wait_failed e), drop_job job (at w state))
        | ok none ↦ (ok (negsuc 0), drop_job job (terminate_job job (at w state)).1)
        | ok (some code) ↦ (ok code, drop_job job (terminate_job job (at w state)).1)
      ]

  -- `kill_escalating`, which ignores the grace period and drops its clone
  unfoldable pub kill_escalating : ℕ → (grace : ℕ) → World W C → Reply W C E (Unit {0})
  unfolding terminate_job drop_job
  kill_escalating job grace w =
      let (done, w') = terminate_job job w in
      (if done then ok tt else err (kill_failed (api.last_os_error w'.state)), drop_job job w')

  -- `tree_alive`
  unfoldable pub tree_alive : ℕ → World W C → Bool × World W C
  tree_alive job w =
      let (active, state) = api.active_processes job w.state in
      (elim active [ none ↦ true | some n ↦ ltb 0 n ], at w state)

  -- `reap_abandoned` does nothing
  unfoldable pub reap_abandoned : ℕ → World W C → World W C
  reap_abandoned job w = w
