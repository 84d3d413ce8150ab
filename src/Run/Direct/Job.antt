-- ===== src/Run/Direct/Job.antt =====
-- A sequential run of src/task.rs on the Windows layer of src/os/windows.rs terminates the job that
-- it has started.
use mathlib.Core.List.{Memᴰ}
use aer_core.Base.{
  ◌∷◌, ◌==◌, if_cases, ℕ, ℤ, Bool, ◌≡◌, refl, subst, ◌⊎◌, inl, inr, Option, none, some, List,
  Result, ok, err,
}
use mathlib.Core.Option.{some-injective}
use aer_core.Os.{OsHandle, ChunkMsg}
use aer_core.Os.Windows.{
  Api, Reply, JobCall, terminated, refused, closed, clone_job, drop_job, close_job, World,
  terminate_job, wait, kill_escalating, spawn, reap_abandoned,
}
use aer_core.Os.Windows.Process.{windows_process, windows_process-OsProcessLaws}
use aer_core.Task.{Task, CancelHandle}
use aer_core.Run.Direct.{spawn_options, run_direct}
use aer_core.Run.Direct.Simulation.{simple}
use aer_core.Run.Direct.Sweep.{SweptAfter, ReturnsSwept, run_direct-ReturnsSwept}

module _ {W C E : Type 0} (api : Api W C E) where
  -- `TerminateJobObject` was called for the job, and has terminated it or failed.
  abbrev pub Terminated : ℕ → List (JobCall C) → Type 0
  Terminated job l = Memᴰ (terminated job) l ⊎ Memᴰ (refused job) l

  abbrev pub JobTerminated : ℕ → World W C → Type 0
  JobTerminated job w = Terminated job w.calls

  Terminated-cons :
      (job : ℕ) (c : JobCall C) (l : List (JobCall C)) → Terminated job l → Terminated job (c ∷ l)
  Terminated-cons job c l (inl h) = inl (Memᴰ.tail h)
  Terminated-cons job c l (inr h) = inr (Memᴰ.tail h)

  drop_job-JobTerminated :
      (job other : ℕ) (w : World W C)
      → JobTerminated job w
      → JobTerminated job (drop_job api other w)
  unfolding drop_job close_job
  drop_job-JobTerminated job other w h =
      if_cases (JobTerminated job) (w.refs other == 1)
        (Terminated-cons job (closed other) w.calls h) h

  terminate_job-JobTerminated :
      (job : ℕ) (w : World W C) → JobTerminated job (terminate_job api job w).1
  unfolding terminate_job
  terminate_job-JobTerminated job w =
      if_cases (λ (c : JobCall C). Terminated job (c ∷ w.calls)) (api.terminate job w.state).0
        (inl (Memᴰ.head refl)) (inr (Memᴰ.head refl))

  terminated_and_dropped :
      (job : ℕ) (w : World W C) → JobTerminated job (drop_job api job (terminate_job api job w).1)
  terminated_and_dropped job w =
      drop_job-JobTerminated job job (terminate_job api job w).1 (terminate_job-JobTerminated job w)

  kill_escalating-JobTerminated :
      (job : ℕ) (w : World W C) → JobTerminated job (kill_escalating api job 0 w).1
  unfolding kill_escalating
  kill_escalating-JobTerminated job w = terminated_and_dropped job w

  wait-SweptAfter_job :
      (child : C) (job : ℕ) (w : World W C)
      → SweptAfter (windows_process api) (JobTerminated job) job (wait api child job w)
  unfolding wait reap_abandoned
  wait-SweptAfter_job child job w = go (api.child_wait child w.state).0 refl
    where
      go :
          (r : Result (Option ℤ) E)
          → (api.child_wait child w.state).0 ≡ r
          → SweptAfter (windows_process api) (JobTerminated job) job (wait api child job w)
      go (ok none) e =
          rw (e, SweptAfter, wait)
            (terminated_and_dropped job (record w { state = (api.child_wait child w.state).1 }))
      go (ok (some code)) e =
          rw (e, SweptAfter, wait)
            (terminated_and_dropped job (record w { state = (api.child_wait child w.state).1 }))
      go (err io) e =
          rw (e, SweptAfter, wait)
            (λ r killed.
              subst (λ (x : Reply W C E (Unit {0})). JobTerminated job x.1)
                (some-injective _ _ killed)
                (kill_escalating-JobTerminated job (
                  clone_job api job
                    (drop_job api job (record w { state = (api.child_wait child w.state).1 })))))

  -- On Windows a run that has started a process returns, and has called `TerminateJobObject` for the job
  -- of that process by then, which has terminated it or failed. The run is that of a task without a timeout
  -- whose callback returns and whose cancel handle nobody else uses meanwhile.
  pub run_direct-JobTerminated :
      E
      → (t : Task) (messages : List ChunkMsg) (capture with_cancel : Bool) (ch : CancelHandle ℕ)
        (w w' : World W C) (h : OsHandle ℕ) (child : C)
      → spawn api t.program t.args (spawn_options t) w ≡ (ok (h, child), w')
      → ReturnsSwept
          (JobTerminated h.kill)
          (run_direct (windows_process api) (simple capture t) with_cancel messages ch w)
  run_direct-JobTerminated io t messages capture with_cancel =
      run_direct-ReturnsSwept (windows_process api) JobTerminated
        (record { wait-SweptAfter = wait-SweptAfter_job; drop-Swept = drop_job-JobTerminated })
        messages with_cancel (windows_process-OsProcessLaws api) io t capture
