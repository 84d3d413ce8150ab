-- ===== src/Run/Direct/Handles.antt =====
-- A sequential run of src/task.rs on the Windows layer of src/os/windows.rs: the clones of the job's
-- handle from the spawn to the end of the run.
use aer_core.Base.{
  ◌+◌, ◌&&◌, not, if_cases, ℕ, ℤ, Bool, true, false, ◌≡◌, refl, subst, Option, none, some, List, [],
  Result, ok, err, if◌then◌else◌,
}
use aer_core.Error.{AerError, wait_failed}
use aer_core.Os.{OsHandle, ChunkMsg}
use aer_core.Os.Process.{FailsWith}
use aer_core.Os.Windows.{
  Api, World, clone_job, drop_job, wait, kill_escalating, spawn, reap_abandoned,
}
use aer_core.Os.Windows.Handles.{
  closings, Counts, Freed, clone_job-Counts, drop_job-Counts, drop_job-Freed, tree_alive-Counts,
  kill_escalating-Counts, wait-Counts, OneClone, spawn-OneClone,
}
use aer_core.Os.Windows.Process.{windows_process, windows_process-OsProcessLaws}
use aer_core.Machine.{new, transition}
use aer_core.Task.{Task, CancelHandle, kill_grace}
use aer_core.Run.Runner.{run_result}
use aer_core.Run.Direct.{
  Session, Finished, spawn_options, early_kill, early_probe, wire, finish, report, leave, drop_slot,
  unwire, announce, abandon, after_wait, after_wiring, after_spawn, pump, run_direct,
}
use aer_core.Run.Direct.Simulation.{simple, running}

-- The result is the failure of `wait`.
abbrev pub is_wait_failed : {E : Type 0} → Result (Unit {0}) (AerError E) → Bool
is_wait_failed (err (wait_failed io)) = true
is_wait_failed r = false

-- Either the slot of the cancel handle holds the one clone that is alive, or none is alive.
abbrev pub Settled : {W C : Type 0} → (kept : Bool) → ℕ → ℕ → Option ℕ → World W C → Type 0
Settled true job c slot w = Counts job 1 c w × (slot ≡ some job)
Settled false job c slot w = Freed job c w × (slot ≡ none)

-- The run returns, and the clones are settled: one is kept if there is a cancel handle and `wait` has
-- failed.
abbrev pub ReturnsSettled :
    {W C E : Type 0} → (with_cancel : Bool) → ℕ → ℕ → Finished (World W C) ℕ E → Type 0
ReturnsSettled {W = W} {C = C} {E = E} with_cancel job c x =
    (r : Result (Unit {0}) (AerError E) × Session (World W C) ℕ) × (x ≡ some r)
    × Settled (with_cancel && is_wait_failed r.0) job c r.1.cancel.kill r.1.world

module _ {W C E : Type 0} (api : Api W C E) (messages : List ChunkMsg) (t : Task) (job c : ℕ) where
  -- `n` clones are alive beside that of the cancel handle, if that holds one.
  abbrev Held : (with_cancel : Bool) → ℕ → Option ℕ → World W C → Type 0
  Held true n slot w = Counts job (n + 1) c w × (slot ≡ some job)
  Held false n slot w = Counts job n c w × (slot ≡ none)

  abbrev HeldBy : Bool → ℕ → Option (Session (World W C) ℕ) → Type 0
  HeldBy with_cancel n x =
      (s : Session (World W C) ℕ) × (x ≡ some s) × Held with_cancel n s.cancel.kill s.world

  killed-Held :
      (slot : Option ℕ) (w : World W C)
      → Held true 2 slot w
      → Held true 2 slot (kill_escalating api job kill_grace (clone_job api job w)).1
  killed-Held slot w (counts, holds) = (
    kill_escalating-Counts api job kill_grace 2 c (clone_job api job w)
        (clone_job-Counts api job 3 c w counts),
    holds,
  )

  early_probe-HeldBy :
      (s : Session (World W C) ℕ) (alive : Bool) (w : World W C)
      → Held true 2 s.cancel.kill w
      → HeldBy true 2 (early_probe (windows_process api) t true messages job s (alive, w))
  unfolding early_probe early_kill
  early_probe-HeldBy s false w h = (_, refl, h)
  early_probe-HeldBy s true w h = (_, refl, killed-Held s.cancel.kill w h)

  abbrev wired : Session (World W C) ℕ → Session (World W C) ℕ
  wired s = record s {
    cancel = record (s.cancel) { kill = some job };
    world = clone_job api job s.world;
  }

  wire-HeldBy :
      (with_cancel : Bool) (s : Session (World W C) ℕ)
      → Held false 2 s.cancel.kill s.world
      → HeldBy with_cancel 2 (wire (windows_process api) t with_cancel messages job s)
  unfolding wire drop_slot
  wire-HeldBy false s h = (s, refl, h)
  wire-HeldBy true s (counts, slot) =
      let more = clone_job-Counts api job 2 c s.world counts in
      rw (slot, wire, drop_slot)
        (if_cases (HeldBy true 2) (s.cancel.cancelled && not s.cancel.kill_fired)
          (early_probe-HeldBy (wired s) _ _
            (tree_alive-Counts api job 3 c (wired s).world more, refl))
          (_, refl, (more, refl)))

  abandon-Settled :
      (with_cancel : Bool) (io : E) (s : Session (World W C) ℕ)
      → Held with_cancel 1 s.cancel.kill s.world
      → ReturnsSettled {E = E} with_cancel job c (
          abandon
            (windows_process api)
            t
            with_cancel
            messages
            job
            (wait_failed io)
            s
            (some (kill_escalating api job 0 (clone_job api job s.world))))
  unfolding abandon reap_abandoned
  abandon-Settled true io s (counts, slot) =
      let more = clone_job-Counts api job 2 c s.world counts in
      let fewer = kill_escalating-Counts api job 0 1 c (clone_job api job s.world) more in
      (_, refl, (drop_job-Counts api job 0 c _ fewer, slot))
  abandon-Settled false io s (counts, slot) =
      let more = clone_job-Counts api job 1 c s.world counts in
      let fewer = kill_escalating-Counts api job 0 0 c (clone_job api job s.world) more in
      (_, refl, (drop_job-Freed api job c _ fewer, slot))

  dropped-Settled :
      (w : World W C)
      → Counts job 2 c w
      → Settled false job c none (drop_job api job (drop_job api job w))
  dropped-Settled w counts =
      (drop_job-Freed api job c (drop_job api job w) (drop_job-Counts api job 0 c w counts), refl)

  finish-Settled :
      (with_cancel : Bool) (code : ℤ) (s : Session (World W C) ℕ)
      → Held with_cancel 1 s.cancel.kill s.world
      → ReturnsSettled with_cancel job c
          (some (finish (windows_process api) t with_cancel messages running job code s))
  unfolding finish leave report unwire drop_slot transition run_result
  finish-Settled false code s (counts, slot) =
      (_, refl, (drop_job-Freed api job c s.world counts, slot))
  finish-Settled true code s (counts, slot) =
      let gone = dropped-Settled s.world counts in
      rw (slot, drop_slot)
        (
          _,
          refl,
          (if_cases
              (λ (r : Result (Unit {0}) (AerError E)).
                Settled (is_wait_failed r) job c none (drop_job api job (drop_job api job s.world)))
              s.cancel.kill_fired gone gone),
        )

  after_wait-Settled :
      (with_cancel : Bool) (s : Session (World W C) ℕ) (x : Result ℤ (AerError E) × World W C)
      → FailsWith wait_failed x.0
      → Held with_cancel 1 s.cancel.kill x.1
      → ReturnsSettled with_cancel job c
          (after_wait (windows_process api) t with_cancel messages running job s x)
  unfolding after_wait
  after_wait-Settled with_cancel s (ok code, w) fails h = finish-Settled with_cancel code _ h
  after_wait-Settled with_cancel s (err e, w) (io, is_io) h =
      rw is_io (abandon-Settled with_cancel io (record s { world = w }) h)

  wait-Held :
      (with_cancel : Bool) (child : C) (slot : Option ℕ) (w : World W C)
      → Held with_cancel 2 slot w
      → Held with_cancel 1 slot (wait api child job w).1
  wait-Held true child slot w (counts, holds) = (wait-Counts api child job 1 c w counts, holds)
  wait-Held false child slot w (counts, holds) = (wait-Counts api child job 0 c w counts, holds)

  abbrev delivered : Session (World W C) ℕ → Session (World W C) ℕ
  delivered s = record s { events = pump (if t.capture_output then messages else []) s.events }

  after_wiring-Settled :
      (with_cancel : Bool) (child : C) (x : Option (Session (World W C) ℕ))
      → HeldBy with_cancel 2 x
      → ReturnsSettled with_cancel job c
          (after_wiring (windows_process api) t with_cancel messages running job child x)
  unfolding after_wiring
  after_wiring-Settled with_cancel child x (s, is_some, h) =
      rw (is_some, after_wiring)
        (after_wait-Settled with_cancel (delivered s) (wait api child job s.world)
          ((windows_process-OsProcessLaws api).wait-FailsWith child job s.world)
          (wait-Held with_cancel child s.cancel.kill s.world h))

  after_spawn-Settled :
      (with_cancel : Bool) (ch : CancelHandle ℕ) (pid : ℕ) (child : C) (w : World W C)
      → ch.kill ≡ none
      → Counts job 1 c w
      → ReturnsSettled with_cancel job c (
          after_spawn
            (windows_process api)
            t
            with_cancel
            messages
            ch
            (ok (record { pid = pid; kill = job }, child), w))
  unfolding after_spawn announce new transition
  after_spawn-Settled with_cancel ch pid child w slot counts =
      after_wiring-Settled with_cancel child _
        (wire-HeldBy with_cancel _ (clone_job-Counts api job 1 c w counts, slot))

module _ {W C E : Type 0} (api : Api W C E) where
  -- On Windows, a run that has started a process returns, and the handle of its job has been closed once,
  -- by the last call that the run makes; except where `wait` has failed and there is a cancel handle:
  -- there the handle is not closed by the run, and the cancel handle keeps its one clone. The cancel handle comes
  -- with no kill handle. The run is that of a task without a timeout whose callback returns and whose
  -- cancel handle nobody else uses meanwhile.
  pub run_direct-ReturnsSettled :
      (t : Task) (messages : List ChunkMsg) (capture with_cancel : Bool) (ch : CancelHandle ℕ)
      (w w' : World W C) (h : OsHandle ℕ) (child : C)
      → ch.kill ≡ none
      → spawn api t.program t.args (spawn_options t) w ≡ (ok (h, child), w')
      → ReturnsSettled with_cancel h.kill
          (closings h.kill w'.calls)
          (run_direct (windows_process api) (simple capture t) with_cancel messages ch w)
  unfolding run_direct spawn_options
  run_direct-ReturnsSettled t messages capture with_cancel ch w w' h child slot e = rw e (
      after_spawn-Settled api messages (simple capture t) h.kill (closings h.kill w'.calls)
        with_cancel ch h.pid child w' slot (one, refl))
    where
      one : w'.refs h.kill ≡ 1
      one = subst (OneClone api) e (spawn-OneClone api t.program t.args (spawn_options t) w)
