-- ===== src/Run/Direct/Reuse.antt =====
-- A run of src/task.rs on Windows with a cancel handle that an earlier run has left with the handle of
-- its job, as a run does whose `wait` fails.
use aer_core.Base.{
  ◌+◌, ◌&&◌, ◌==◌, not, if_cases, ℕ, ℤ, Bool, true, false, ◌≡◌, refl, subst, arith, Option, some,
  List, [], Result, ok, err, if◌then◌else◌,
}
use aer_core.Error.{AerError}
use aer_core.Os.{OsHandle, ChunkMsg}
use aer_core.Os.Windows.{
  Api, World, clone_job, drop_job, wait, kill_escalating, spawn, reap_abandoned,
}
use aer_core.Os.Windows.Handles.{
  closings, Counts, drop_job-Freed, clone_job-others, drop_job-others, tree_alive-others,
  kill_escalating-others, wait-others, KeepsOthers, spawn-KeepsOthers,
}
use aer_core.Os.Windows.Process.{windows_process}
use aer_core.Machine.{new, transition}
use aer_core.Task.{Task, CancelHandle, kill_grace}
use aer_core.Run.Direct.{
  Session, Finished, spawn_options, early_kill, early_probe, wire, finish, report, leave, drop_slot,
  unwire, announce, abandon, after_wait, after_wiring, after_spawn, pump, run_direct,
}
use aer_core.Run.Direct.Simulation.{simple, running}

-- The run returns, and the handle of the job `old` is closed, once more than `c` times.
abbrev ReturnsClosed : {W C E : Type 0} → ℕ → ℕ → Finished (World W C) ℕ E → Type 0
ReturnsClosed {W = W} {C = C} {E = E} old c x =
    (r : Result (Unit {0}) (AerError E) × Session (World W C) ℕ) × (x ≡ some r)
    × Counts old 0 (c + 1) r.1.world

module _ {W C E : Type 0} (api : Api W C E) (messages : List ChunkMsg) (t : Task) (job old c : ℕ)
    (foreign : (job == old) ≡ false) where
  -- The cancel handle holds the new job, and the old one is closed.
  abbrev Wired : Option ℕ → World W C → Type 0
  Wired slot w = (slot ≡ some job) × Counts old 0 (c + 1) w

  abbrev WiredBy : Option (Session (World W C) ℕ) → Type 0
  WiredBy x = (s : Session (World W C) ℕ) × (x ≡ some s) × Wired s.cancel.kill s.world

  killed-Counts :
      (grace : ℕ) (w : World W C)
      → Counts old 0 (c + 1) w
      → Counts old 0 (c + 1) (kill_escalating api job grace (clone_job api job w)).1
  killed-Counts grace w h =
      kill_escalating-others api job old 0 (c + 1) foreign grace (clone_job api job w)
        (clone_job-others api job old 0 (c + 1) foreign w h)

  early_probe-WiredBy :
      (s : Session (World W C) ℕ) (alive : Bool) (w : World W C)
      → Wired s.cancel.kill w
      → WiredBy (early_probe (windows_process api) t true messages job s (alive, w))
  unfolding early_probe early_kill
  early_probe-WiredBy s false w h = (_, refl, h)
  early_probe-WiredBy s true w (slot, h) = (_, refl, (slot, killed-Counts kill_grace w h))

  abbrev wired : Session (World W C) ℕ → Session (World W C) ℕ
  wired s = record s {
    cancel = record (s.cancel) { kill = some job };
    world = drop_job api old (clone_job api job s.world);
  }

  old_closed :
      (w : World W C)
      → Counts old 1 c w
      → Counts old 0 (c + 1) (drop_job api old (clone_job api job w))
  old_closed w h =
      let (none_left, l, is_l, before) =
        drop_job-Freed api old c (clone_job api job w)
          (clone_job-others api job old 1 c foreign w h) in
      (none_left, rw is_l (ground (arith, before)))

  wire-WiredBy :
      (s : Session (World W C) ℕ)
      → s.cancel.kill ≡ some old
      → Counts old 1 c s.world
      → WiredBy (wire (windows_process api) t true messages job s)
  unfolding wire drop_slot
  wire-WiredBy s slot h =
      let closed = old_closed s.world h in
      rw (slot, wire, drop_slot)
        (if_cases WiredBy (s.cancel.cancelled && not s.cancel.kill_fired)
          (early_probe-WiredBy (wired s) _ _
            (refl, tree_alive-others api job old 0 (c + 1) foreign (wired s).world closed))
          (wired s, refl, (refl, closed)))

  after_wait-ReturnsClosed :
      (s : Session (World W C) ℕ) (x : Result ℤ (AerError E) × World W C)
      → Wired s.cancel.kill x.1
      → ReturnsClosed old c (after_wait (windows_process api) t true messages running job s x)
  unfolding after_wait finish leave report unwire drop_slot transition abandon reap_abandoned
  after_wait-ReturnsClosed s (ok code, w) (slot, h) =
      rw (slot, drop_slot)
        (
          _,
          refl,
          drop_job-others api job old 0 (c + 1) foreign (drop_job api job w)
              (drop_job-others api job old 0 (c + 1) foreign w h),
        )
  after_wait-ReturnsClosed s (err e, w) (slot, h) =
      (_, refl, drop_job-others api job old 0 (c + 1) foreign _ (killed-Counts 0 w h))

  after_wiring-ReturnsClosed :
      (child : C) (x : Option (Session (World W C) ℕ))
      → WiredBy x
      → ReturnsClosed old c (after_wiring (windows_process api) t true messages running job child x)
  unfolding after_wiring
  after_wiring-ReturnsClosed child x (s, is_some, (slot, h)) =
      rw (is_some, after_wiring)
        (after_wait-ReturnsClosed
          (record s { events = pump (if t.capture_output then messages else []) s.events })
          (wait api child job s.world)
          (slot, wait-others api job old 0 (c + 1) foreign child s.world h))

  after_spawn-ReturnsClosed :
      (ch : CancelHandle ℕ) (pid : ℕ) (child : C) (w : World W C)
      → ch.kill ≡ some old
      → Counts old 1 c w
      → ReturnsClosed old c (
          after_spawn
            (windows_process api)
            t
            true
            messages
            ch
            (ok (record { pid = pid; kill = job }, child), w))
  unfolding after_spawn announce new transition
  after_spawn-ReturnsClosed ch pid child w slot h =
      after_wiring-ReturnsClosed child _
        (wire-WiredBy _ slot (clone_job-others api job old 1 c foreign w h))

module _ {W C E : Type 0} (api : Api W C E) where
  -- The handle that such a run leaves open is closed by the next run with the same cancel handle that
  -- starts a process in a job of its own: on Windows, if the cancel handle holds the only clone of
  -- another job's handle, such a run returns, and has closed that handle, once. The run is that of a
  -- task without a timeout whose callback returns and whose cancel handle nobody else uses meanwhile.
  run_direct-ReturnsClosed :
      (t : Task) (messages : List ChunkMsg) (capture : Bool) (ch : CancelHandle ℕ)
      (w w' : World W C) (h : OsHandle ℕ) (child : C) (old : ℕ)
      → ch.kill ≡ some old
      → (h.kill == old) ≡ false
      → w.refs old ≡ 1
      → spawn api t.program t.args (spawn_options t) w ≡ (ok (h, child), w')
      → ReturnsClosed old
          (closings old w.calls)
          (run_direct (windows_process api) (simple capture t) true messages ch w)
  unfolding run_direct spawn_options
  run_direct-ReturnsClosed t messages capture ch w w' h child old slot foreign one e = rw e (
      after_spawn-ReturnsClosed api messages (simple capture t) h.kill old (closings old w.calls)
        foreign ch h.pid child w' slot kept)
    where
      kept : Counts old 1 (closings old w.calls) w'
      kept =
          subst (KeepsOthers api old w) e
            (spawn-KeepsOthers api old w t.program t.args (spawn_options t)) foreign one
