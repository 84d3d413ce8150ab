-- ===== src/Os/Windows/Handles.antt =====
-- The `Arc` around a job's handle in src/os/windows.rs: what each operation does to its count, and
-- when it closes the handle.
use aer_core.Base.{
  ℕ, ◌+◌, ◌==◌, String, false, ◌≡◌, refl, List, [], ◌∷◌, ok, err, arith, if◌then◌else◌,
}
use aer_core.Os.{OsHandle, SpawnOptions}
use aer_core.Os.Windows.{
  Api, JobCall, closed, World, Reply, terminate_job, clone_job, drop_job, close_job, wait,
  kill_escalating, tree_alive, spawn, limit_job, spawn_in, assign_child, reap_child,
}

-- How many times the handle of a job was closed.
abbrev pub closings : {C : Type 0} → ℕ → List (JobCall C) → ℕ
closings job [] = 0
closings job (closed j ∷ l) = if j == job then closings job l + 1 else closings job l
closings job (c ∷ l) = closings job l

-- `n` clones are alive, and the handle was closed `c` times.
abbrev pub Counts : {W C : Type 0} → ℕ → ℕ → ℕ → World W C → Type 0
Counts job n c w = (w.refs job ≡ n) × (closings job w.calls ≡ c)

-- No clone is alive, and the handle was closed once more than `c` times, by the last call that was
-- made.
abbrev pub Freed : {W C : Type 0} → ℕ → ℕ → World W C → Type 0
Freed {C = C} job c w =
    (w.refs job ≡ 0) × (l : List (JobCall C)) × (w.calls ≡ closed job ∷ l) × (closings job l ≡ c)

module _ {W C E : Type 0} (api : Api W C E) where
  pub clone_job-Counts :
      (job n c : ℕ) (w : World W C) → Counts job n c w → Counts job (n + 1) c (clone_job api job w)
  unfolding clone_job
  clone_job-Counts job n c w h = ground arith

  pub drop_job-Counts :
      (job n c : ℕ) (w : World W C)
      → Counts job (n + 2) c w
      → Counts job (n + 1) c (drop_job api job w)
  unfolding drop_job close_job
  drop_job-Counts job n c w h = ground arith

  pub drop_job-Freed :
      (job c : ℕ) (w : World W C) → Counts job 1 c w → Freed job c (drop_job api job w)
  unfolding drop_job close_job
  drop_job-Freed job c w (one, h) = rw (one, drop_job) (ground arith, w.calls, refl, h)

  terminate_job-Counts :
      (job n c : ℕ) (w : World W C) → Counts job n c w → Counts job n c (terminate_job api job w).1
  unfolding terminate_job
  terminate_job-Counts job n c w h = ground arith

  pub tree_alive-Counts :
      (job n c : ℕ) (w : World W C) → Counts job n c w → Counts job n c (tree_alive api job w).1
  unfolding tree_alive
  tree_alive-Counts job n c w h = h

  pub kill_escalating-Counts :
      (job grace n c : ℕ) (w : World W C)
      → Counts job (n + 2) c w
      → Counts job (n + 1) c (kill_escalating api job grace w).1
  unfolding kill_escalating
  kill_escalating-Counts job grace n c w h =
      drop_job-Counts job n c (terminate_job api job w).1 (terminate_job-Counts job (n + 2) c w h)

  pub wait-Counts :
      (child : C) (job n c : ℕ) (w : World W C)
      → Counts job (n + 2) c w
      → Counts job (n + 1) c (wait api child job w).1
  unfolding wait terminate_job drop_job close_job
  wait-Counts child job n c w h = ground arith

  abbrev pub OneClone : Reply W C E (OsHandle ℕ × C) → Type 0
  OneClone (ok (h, child), w) = w.refs h.kill ≡ 1
  OneClone (err e, w) = Unit

  pub spawn-OneClone :
      (program : String) (args : List String) (options : SpawnOptions) (w : World W C)
      → OneClone (spawn api program args options w)
  unfolding spawn limit_job spawn_in assign_child drop_job close_job reap_child
  spawn-OneClone program args options w = ground arith

-- What is done with one job leaves the handle of another alone.
module _ {W C E : Type 0} (api : Api W C E) (job old n c : ℕ) (foreign : (job == old) ≡ false) where
  pub clone_job-others : (w : World W C) → Counts old n c w → Counts old n c (clone_job api job w)
  unfolding clone_job
  clone_job-others w h = ground (arith, foreign)

  pub drop_job-others : (w : World W C) → Counts old n c w → Counts old n c (drop_job api job w)
  unfolding drop_job close_job
  drop_job-others w h = ground (arith, foreign)

  terminate_job-others :
      (w : World W C) → Counts old n c w → Counts old n c (terminate_job api job w).1
  unfolding terminate_job
  terminate_job-others w h = ground (arith, foreign)

  pub tree_alive-others :
      (w : World W C) → Counts old n c w → Counts old n c (tree_alive api job w).1
  unfolding tree_alive
  tree_alive-others w h = h

  pub kill_escalating-others :
      (grace : ℕ) (w : World W C)
      → Counts old n c w
      → Counts old n c (kill_escalating api job grace w).1
  unfolding kill_escalating
  kill_escalating-others grace w h =
      drop_job-others (terminate_job api job w).1 (terminate_job-others w h)

  pub wait-others :
      (child : C) (w : World W C) → Counts old n c w → Counts old n c (wait api child job w).1
  unfolding wait terminate_job drop_job close_job
  wait-others child w h = ground (arith, foreign)

module _ {W C E : Type 0} (api : Api W C E) (old : ℕ) (w : World W C) where
  -- A spawn into another job leaves the one clone of `old` alone.
  abbrev pub KeepsOthers : Reply W C E (OsHandle ℕ × C) → Type 0
  KeepsOthers (ok (h, child), w') =
      (h.kill == old) ≡ false → w.refs old ≡ 1 → Counts old 1 (closings old w.calls) w'
  KeepsOthers (err e, w') = Unit

  pub spawn-KeepsOthers :
      (program : String) (args : List String) (options : SpawnOptions)
      → KeepsOthers (spawn api program args options w)
  unfolding spawn limit_job spawn_in assign_child drop_job close_job reap_child
  spawn-KeepsOthers program args options = ground arith
