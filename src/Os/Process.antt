-- ===== src/Os/Process.antt =====
-- `trait OsProcess` of src/os/mod.rs: what a platform offers to `run_impl`, and what `run_impl`
-- counts on. `W` is the state of the system, `C` stands for `Child` and `E` is `io::Error`.
use aer_core.Base.{ℕ, ℤ, String, Bool, ◌≡◌, ◌≢◌, Option, none, List, Result, ok, err}
use aer_core.Error.{AerError, spawn_failed, wait_failed}
use aer_core.Os.{OsHandle, SpawnOptions}

-- The operations. A handle's child stands beside it, and `wait` is less its drain threads, which are
-- in Os/Drain.antt. `kill_escalating` answers `none` where it does not return. `wait` and
-- `kill_escalating` own the handle that they get; `clone` and `drop` are those of `KillHandle`.
pub record OsProcess (W K C E : Type 0) : Type 0 where
  pub spawn : String → List String → SpawnOptions → W → Result (OsHandle K × C) (AerError E) × W
  pub wait : C → K → W → Result ℤ (AerError E) × W
  pub kill_escalating : K → (grace : ℕ) → W → Option (Result (Unit {0}) (AerError E) × W)
  pub tree_alive : K → W → Bool × W
  pub reap_abandoned : K → W → W
  pub clone : K → W → W
  pub drop : K → W → W

-- The only error of an operation is an `io::Error` in the variant given.
abbrev pub FailsWith : {A E : Type 0} → (E → AerError E) → Result A (AerError E) → Type 0
FailsWith variant (ok a) = Unit
FailsWith {E = E} variant (err e) = (io : E) × (e ≡ variant io)

-- What a platform promises: a failed spawn is `SpawnFailed`, a failed wait is `WaitFailed`, and
-- `kill_escalating` returns.
pub record OsProcessLaws {W K C E : Type 0} (os : OsProcess W K C E) : Type 0 where
  pub spawn-FailsWith :
      (program : String) (args : List String) (options : SpawnOptions) (w : W)
      → FailsWith spawn_failed (os.spawn program args options w).0
  pub wait-FailsWith :
      (child : C) (kill : K) (w : W) → FailsWith wait_failed (os.wait child kill w).0
  pub kill_escalating_returns :
      (kill : K) (grace : ℕ) (w : W) → os.kill_escalating kill grace w ≢ none
