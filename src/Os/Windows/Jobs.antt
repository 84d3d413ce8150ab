-- ===== src/Os/Windows/Jobs.antt =====
-- No process and no job handle of src/os/windows.rs is lost.
use aer_core.Base.{
  ℕ, ◌+◌, ◌-◌, String, false, ◌≡◌, ◌↔◌, some, List, [], ◌∷◌, Result, ok, err, arith,
}
use aer_core.Os.{SpawnOptions}
use aer_core.Os.Windows.{
  Api, JobCall, created, closed, spawned, reaped, assigned, World, close_job, reap_child,
  assign_child, spawn_in, limit_job, spawn, tree_alive,
}

-- How many job handles are open after these calls.
abbrev pub open_jobs : {C : Type 0} → List (JobCall C) → ℕ
open_jobs [] = 0
open_jobs (created j ∷ l) = open_jobs l + 1
open_jobs (closed j ∷ l) = open_jobs l - 1
open_jobs (c ∷ l) = open_jobs l

-- How many processes were spawned that neither went into a job nor were killed and waited for.
abbrev pub strays : {C : Type 0} → List (JobCall C) → ℕ
strays [] = 0
strays (spawned c ∷ l) = strays l + 1
strays (assigned j c ∷ l) = strays l - 1
strays (reaped c ∷ l) = strays l - 1
strays (c ∷ l) = strays l

abbrev pub handles : {A E : Type 0} → Result A E → ℕ
handles (ok h) = 1
handles (err e) = 0

module _ {W C E : Type 0} (api : Api W C E) where
  -- Whichever of its calls fails, `spawn` adds no process that is neither in a job nor killed and
  -- waited for. It leaves one more job handle open if it succeeds, and none more if it fails.
  pub spawn-strays :
      (program : String) (args : List String) (options : SpawnOptions) (w : World W C)
      → let (r, w') = spawn api program args options w in
        (strays w'.calls ≡ strays w.calls) × (open_jobs w'.calls ≡ open_jobs w.calls + handles r)
  unfolding spawn limit_job spawn_in assign_child close_job reap_child
  spawn-strays program args options w = ground arith

  -- `tree_alive` answers "dead" exactly if the query succeeds and counts no active process.
  job_alive_iff :
      (job : ℕ) (w : World W C)
      → ((tree_alive api job w).0 ≡ false) ↔ ((api.active_processes job w.state).0 ≡ some 0)
  unfolding tree_alive
  job_alive_iff job w = (λ h. ground arith, λ h. ground arith)
