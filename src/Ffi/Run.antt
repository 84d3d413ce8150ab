-- ===== src/Ffi/Run.antt =====
-- `aer_task_run`, the cancel handle functions and the last error of src/ffi.rs. How `run_impl` ends
-- is the argument `run`, which the model of `run_impl` describes. The text of a panic is `str` or
-- `String` data, or unknown.
use Prim.Native.String.{◌++◌}
use aer_core.Base.{String, true, Option, none, some, Result, if◌then◌else◌}
use aer_core.Task.{Task}
use aer_core.Run.System.{Outcome, returned, panicked}
use aer_core.Ffi.Codes.{AerErrorCode, clear_last_error, set_last_error, map_aer_error}
use aer_core.Ffi.Handles.{AerTask, Reply}

-- `format_panic`, of the payload's text if it has one
unfoldable pub format_panic : Option String → String
format_panic (some s) = "panic: " ++ s
format_panic none = "panic: unknown panic payload"

module _ {C E : Type 0} (cstring : String → Option C) (show_io : E → String)
    (payload : Option String) where
  -- the match on the result of the run, and the arms of `catch_unwind`
  unfoldable pub finish_run : Outcome E → AerErrorCode × Option C
  unfolding clear_last_error set_last_error map_aer_error format_panic
  finish_run (returned (Result.ok u)) = (AerErrorCode.ok, clear_last_error)
  finish_run (returned (Result.err e)) = map_aer_error cstring show_io e
  finish_run panicked = (AerErrorCode.panic, set_last_error cstring (format_panic payload))

  module _ {H : Type 0} (run : Task → Option H → Outcome E) where
    run_inner : AerTask H → Option C → Option Task → Reply C H
    run_inner t msg none = (AerErrorCode.already_run, some t, msg)
    run_inner t msg (some inner) =
        let (code, msg') = finish_run (run inner t.cancel) in (code, some t, msg')

    -- `aer_task_run`
    unfoldable pub aer_task_run : Option (AerTask H) → Option C → Reply C H
    unfolding run_inner finish_run
    aer_task_run none msg = (AerErrorCode.null_pointer, none, msg)
    aer_task_run (some t) msg =
        if t.has_run
        then (AerErrorCode.already_run, some t, msg)
        else run_inner (record t { has_run = true }) msg t.inner

-- `aer_task_make_cancel_handle`, which gives the task the handle that it returns
unfoldable pub aer_task_make_cancel_handle :
    {H : Type 0} → H → Option (AerTask H) → Option H × Option (AerTask H)
aer_task_make_cancel_handle fresh none = (none, none)
aer_task_make_cancel_handle fresh (some t) = (some fresh, some (record t { cancel = some fresh }))

-- `aer_cancel`, where `cancel` is what `CancelHandle::cancel` does to a state
unfoldable pub aer_cancel :
    {C H W : Type 0} → (H → W → W) → Option H → W → Option C → AerErrorCode × W × Option C
unfolding clear_last_error
aer_cancel cancel none state msg = (AerErrorCode.null_pointer, state, msg)
aer_cancel cancel (some h) state msg = (AerErrorCode.ok, cancel h state, clear_last_error)
