-- ===== src/Error.antt =====
-- src/lib.rs: the errors of the crate. `io::Error` belongs to std and is the parameter `E`;
-- its `Display` is the argument `show_io`.
use Prim.Native.String.{◌++◌}
use aer_core.Base.{String, Option, none, some}
use aer_core.State.{State, show_state}

-- `enum AerError`
pub data AerError {ℓ} (E : Type ℓ) : Type ℓ where
  spawn_failed : E → AerError E
  wait_failed : E → AerError E
  invalid_state_transition : (from to : State) → AerError E
  timed_out : AerError E
  kill_failed : E → AerError E
  cancelled : AerError E

module _ {ℓ} {E : Type ℓ} where
  -- `impl Display for AerError`
  unfoldable pub show_error : (E → String) → AerError E → String
  unfolding show_state
  show_error show_io (spawn_failed e) = "process spawn failed: " ++ show_io e
  show_error show_io (wait_failed e) = "process wait failed: " ++ show_io e
  show_error show_io (invalid_state_transition from to) =
      "invalid state transition: " ++ (show_state from ++ (" → " ++ show_state to))
  show_error show_io timed_out = "process timed out and was killed"
  show_error show_io (kill_failed e) = "kill attempt failed: " ++ show_io e
  show_error show_io cancelled = "process was cancelled"

  -- `impl std::error::Error for AerError`: `source`
  unfoldable pub source : AerError E → Option E
  source (spawn_failed e) = some e
  source (wait_failed e) = some e
  source (invalid_state_transition from to) = none
  source timed_out = none
  source (kill_failed e) = some e
  source cancelled = none
