-- ===== src/Os/Unix/Process.antt =====
-- `impl OsProcess for UnixProcess` of src/os/unix.rs. A `KillHandle` is the group's id.
use aer_core.Base.{ℕ, ℤ, Option, none, some, Result, ok, err}
use aer_core.Error.{spawn_failed, wait_failed}
use aer_core.Os.Process.{OsProcess, OsProcessLaws, FailsWith}
use aer_core.Os.Unix.{
  Errno, System, World, exit_result, spawn_result, spawn, wait, kill_escalating, tree_alive,
  reap_abandoned,
}
use aer_core.Os.Unix.Escalation.{ClockLaws, kill_escalating_total}

module _ {W : Type 0} (os : System W) where
  abbrev pub unix_process : OsProcess (World W) ℕ ℕ Errno
  unix_process = record {
    spawn = spawn os;
    wait = λ child pgid w. wait os pgid child w;
    kill_escalating = kill_escalating os;
    tree_alive = tree_alive os;
    reap_abandoned = reap_abandoned os;
    clone = λ pgid w. w;
    drop = λ pgid w. w;
  }

  spawn_result-FailsWith : (r : Result ℕ Errno) → FailsWith spawn_failed (spawn_result os r)
  unfolding spawn_result
  spawn_result-FailsWith (ok child) = tt
  spawn_result-FailsWith (err e) = (e, λ i. spawn_failed e)

  exit_result-FailsWith :
      (pgid : ℕ) (r : Result (Option ℤ) Errno) → FailsWith wait_failed (exit_result os pgid r)
  unfolding exit_result
  exit_result-FailsWith pgid (ok (some code)) = tt
  exit_result-FailsWith pgid (ok none) = tt
  exit_result-FailsWith pgid (err e) = (e, λ i. wait_failed e)

  pub unix_process-OsProcessLaws : (clock : W → ℕ) → ClockLaws os clock → OsProcessLaws unix_process
  unfolding spawn wait
  unix_process-OsProcessLaws clock laws = record {
    spawn-FailsWith = λ program args options w. spawn_result-FailsWith _;
    wait-FailsWith = λ child pgid w. exit_result-FailsWith pgid _;
    kill_escalating_returns = λ pgid grace w. kill_escalating_total os pgid clock laws grace w;
  }
