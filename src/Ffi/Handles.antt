-- ===== src/Ffi/Handles.antt =====
-- The task handle of src/ffi.rs: its creation and the functions that configure it. A pointer is an
-- `Option`, `none` for NULL. `C` is the type of null-terminated strings, and `to_str` is
-- `CStr::to_str` of std. Of the thread-local error message only its presence and text are kept,
-- as a `C`. No branch of these functions panics, so `catch_unwind` adds nothing.
use Prim.Native.Char.{code}
use aer_core.Base.{
  ℕ, ◌*◌, ◌^◌, String, Bool, true, false, ◌||◌, Option, none, some, ◌==◌, if◌then◌else◌,
}
use aer_core.Task.{Task, with_timeout, with_capture_output, with_env, with_clear_env, with_cwd}
use aer_core.Ffi.Codes.{AerErrorCode, clear_last_error}

-- `MAX_ARGS_LEN`
abbrev pub max_args_len : ℕ
max_args_len = 65536

-- `struct AerTask`; `H` names a cancel handle
pub record AerTask (H : Type 0) : Type 0 where
  pub inner : Option Task
  pub has_run : Bool
  pub cancel : Option H

-- `str::is_empty`
unfoldable pub is_empty : String → Bool
is_empty String.[] = true
is_empty (String.◌∷◌ c s) = false

-- `key_str.contains('=')`
unfoldable pub contains_eq : String → Bool
contains_eq String.[] = false
contains_eq (String.◌∷◌ c s) = (code c == b'=') || contains_eq s

-- the test of `aer_task_set_env` on a key
unfoldable pub is_invalid_key : String → Bool
unfolding is_empty contains_eq
is_invalid_key key = is_empty key || contains_eq key

-- What a call on a task returns: its code, the task behind the pointer, the last error message.
abbrev pub Reply : (C H : Type 0) → Type 0
Reply C H = AerErrorCode × Option (AerTask H) × Option C

module _ {C H : Type 0} where
  -- `t.inner.take()`, a builder, and the put back
  rebuild : (Task → Task) → AerTask H → Option C → Option Task → Reply C H
  rebuild build t msg none = (AerErrorCode.already_run, some t, msg)
  rebuild build t msg (some inner) =
      (AerErrorCode.ok, some (record t { inner = some (build inner) }), clear_last_error)

  -- The checks and the builder call that the setters share.
  unfoldable pub configure : (Task → Task) → Option (AerTask H) → Option C → Reply C H
  unfolding rebuild
  configure build none msg = (AerErrorCode.null_pointer, none, msg)
  configure build (some t) msg =
      if t.has_run then (AerErrorCode.already_run, some t, msg) else rebuild build t msg t.inner

  -- `aer_task_with_timeout`; `Duration::from_millis` in nanoseconds
  unfoldable pub aer_task_with_timeout : Option (AerTask H) → ℕ → Option C → Reply C H
  unfolding configure
  aer_task_with_timeout task timeout_ms = configure (λ t. with_timeout t (timeout_ms * 10 ^ 6)) task

  -- `aer_task_with_capture_output`
  unfoldable pub aer_task_with_capture_output : Option (AerTask H) → Bool → Option C → Reply C H
  unfolding configure
  aer_task_with_capture_output task capture = configure (λ t. with_capture_output t capture) task

  -- `aer_task_set_clear_env`
  unfoldable pub aer_task_set_clear_env : Option (AerTask H) → Bool → Option C → Reply C H
  unfolding configure
  aer_task_set_clear_env task clear = configure (λ t. with_clear_env t clear) task

  module _ (to_str : C → Option String) where
    abbrev invalid : AerTask H → Option C → Reply C H
    invalid t msg = (AerErrorCode.invalid_argument, some t, msg)

    -- `aer_task_set_env` after its null checks, from the conversion of the key on
    set_env_on : AerTask H → Option C → Option String → Option String → Reply C H
    unfolding is_invalid_key rebuild
    set_env_on t msg none value = invalid t msg
    set_env_on t msg (some key) none = invalid t msg
    set_env_on t msg (some key) (some value) =
        if is_invalid_key key
        then invalid t msg
        else rebuild (λ inner. with_env inner key value) t msg t.inner

    -- `aer_task_set_env`
    unfoldable pub aer_task_set_env :
        Option (AerTask H) → Option C → Option C → Option C → Reply C H
    unfolding set_env_on
    aer_task_set_env (some t) (some key) (some value) msg =
        if t.has_run
        then (AerErrorCode.already_run, some t, msg)
        else set_env_on t msg (to_str key) (to_str value)
    aer_task_set_env task key value msg = (AerErrorCode.null_pointer, task, msg)

    set_cwd_on : AerTask H → Option C → Option String → Reply C H
    unfolding is_empty rebuild
    set_cwd_on t msg none = invalid t msg
    set_cwd_on t msg (some path) =
        if is_empty path
        then invalid t msg
        else rebuild (λ inner. with_cwd inner path) t msg t.inner

    -- `aer_task_set_cwd`
    unfoldable pub aer_task_set_cwd : Option (AerTask H) → Option C → Option C → Reply C H
    unfolding set_cwd_on
    aer_task_set_cwd (some t) (some path) msg =
        if t.has_run
        then (AerErrorCode.already_run, some t, msg)
        else set_cwd_on t msg (to_str path)
    aer_task_set_cwd task path msg = (AerErrorCode.null_pointer, task, msg)
