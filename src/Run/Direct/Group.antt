-- ===== src/Run/Direct/Group.antt =====
-- A sequential run of src/task.rs on the Unix layer of src/os/unix.rs kills the process group that
-- it has started.
use mathlib.Core.List.{Memᴰ}
use aer_core.Base.{ℕ, ℤ, Bool, ◌≡◌, refl, Option, none, some, List, Result, ok, err}
use aer_core.Os.{OsHandle, ChunkMsg}
use aer_core.Os.Unix.{
  Errno, sigkill, group, System, World, exit_result, wait, spawn, send_group, reap_abandoned,
}
use aer_core.Os.Unix.Escalation.{ClockLaws}
use aer_core.Os.Unix.Keeps.{kill_escalating-keeps}
use aer_core.Os.Unix.Process.{unix_process, unix_process-OsProcessLaws}
use aer_core.Task.{Task, CancelHandle}
use aer_core.Run.Direct.{spawn_options, run_direct}
use aer_core.Run.Direct.Simulation.{simple}
use aer_core.Run.Direct.Sweep.{SweptAfter, ReturnsSwept, run_direct-ReturnsSwept}

-- SIGKILL was sent to the group.
abbrev pub GroupKilled : {W : Type 0} → ℕ → World W → Type 0
GroupKilled pgid w = Memᴰ (group sigkill pgid) w.sent

module _ {W : Type 0} (os : System W) where
  wait-SweptAfter_group :
      (child pgid : ℕ) (w : World W)
      → SweptAfter (unix_process os) (GroupKilled pgid) pgid (wait os pgid child w)
  unfolding wait exit_result send_group reap_abandoned
  wait-SweptAfter_group child pgid w = go (os.child_wait child w.state).0 refl
    where
      go :
          (r : Result (Option ℤ) Errno)
          → (os.child_wait child w.state).0 ≡ r
          → SweptAfter (unix_process os) (GroupKilled pgid) pgid (wait os pgid child w)
      go (ok none) e = rw e (Memᴰ.head refl)
      go (ok (some code)) e = rw e (Memᴰ.head refl)
      go (err io) e = rw e (λ r killed.
          kill_escalating-keeps os pgid (Memᴰ (group sigkill pgid)) (λ s l h. Memᴰ.tail h) 0 _ r
            (Memᴰ.head refl) killed)

  -- On Unix, where no call turns the clock back, a run that has started a process returns, and has
  -- sent SIGKILL to the process group of that process by then, whatever the system calls answer.
  -- The run is that of a task without a timeout whose callback returns and whose cancel handle
  -- nobody else uses meanwhile.
  pub run_direct-GroupKilled :
      (clock : W → ℕ)
      → ClockLaws os clock
      → (t : Task) (messages : List ChunkMsg) (capture with_cancel : Bool) (ch : CancelHandle ℕ)
        (w w' : World W) (h : OsHandle ℕ) (child : ℕ)
      → spawn os t.program t.args (spawn_options t) w ≡ (ok (h, child), w')
      → ReturnsSwept
          (GroupKilled h.kill)
          (run_direct (unix_process os) (simple capture t) with_cancel messages ch w)
  run_direct-GroupKilled clock laws t messages capture with_cancel =
      run_direct-ReturnsSwept (unix_process os) GroupKilled
        (record { wait-SweptAfter = wait-SweptAfter_group; drop-Swept = λ pgid other w h. h })
        messages with_cancel (unix_process-OsProcessLaws os clock laws) Errno.esrch t capture
