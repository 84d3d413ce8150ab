-- ===== src/Ffi/Builder.antt =====
-- The setters of src/ffi.rs against the builder methods of src/task.rs.
use aer_core.Base.{
  ◌*◌, ◌^◌, String, false, ◌≡◌, refl, Option, none, some, List, [], ◌∷◌, arith, if◌then◌else◌,
  Option-cases, inl, inr,
}
use aer_core.Task.{Task, with_timeout, with_capture_output, with_env, with_clear_env, with_cwd}
use aer_core.Run.System.{Outcome}
use aer_core.Ffi.Codes.{AerErrorCode, clear_last_error}
use aer_core.Ffi.Handles.{
  AerTask, Reply, is_empty, is_invalid_key, configure, aer_task_with_timeout,
  aer_task_with_capture_output, aer_task_set_clear_env, aer_task_set_env, aer_task_set_cwd,
}
use aer_core.Ffi.Frozen.{FfiCall, call, calls}

-- No call of `aer_task_run`.
abbrev pub AllSetters : {C : Type 0} → List (FfiCall C) → Type 0
AllSetters [] = Unit
AllSetters (FfiCall.run ∷ cs) = ⊥
AllSetters (c ∷ cs) = AllSetters cs

module _ {C : Type 0} (to_str : C → Option String) where
  abbrev env_builder : Option String → Option String → Option (Task → Task)
  env_builder (some key) (some value) =
      if is_invalid_key key then none else some (λ t. with_env t key value)
  env_builder _ _ = none

  abbrev cwd_builder : Option String → Option (Task → Task)
  cwd_builder (some path) = if is_empty path then none else some (λ t. with_cwd t path)
  cwd_builder none = none

  -- The builder method that a setter with these arguments stands for; `none` if it refuses them.
  abbrev pub builder : FfiCall C → Option (Task → Task)
  builder (FfiCall.with_timeout ms) = some (λ t. with_timeout t (ms * 10 ^ 6))
  builder (FfiCall.with_capture_output b) = some (λ t. with_capture_output t b)
  builder (FfiCall.set_clear_env b) = some (λ t. with_clear_env t b)
  builder (FfiCall.set_env key value) = env_builder (to_str key) (to_str value)
  builder (FfiCall.set_cwd path) = cwd_builder (to_str path)
  builder FfiCall.run = none

  abbrev pub build_with : Option (Task → Task) → Task → Task
  build_with none task = task
  build_with (some build) task = build task

  -- The task that the builder methods make, one after the other.
  abbrev pub built : List (FfiCall C) → Task → Task
  built [] task = task
  built (c ∷ cs) task = built cs (build_with (builder c) task)

  -- A setter that is accepted clears the last error.
  abbrev cleared : Option (Task → Task) → Option C → Option C
  cleared none msg = msg
  cleared (some build) msg = clear_last_error

  abbrev pub last_message : List (FfiCall C) → Option C → Option C
  last_message [] msg = msg
  last_message (c ∷ cs) msg = last_message cs (cleared (builder c) msg)

  module _ {H E : Type 0} (cstring : String → Option C) (show_io : E → String)
      (payload : Option String) (execute : Task → Option H → Outcome E) where
    -- A handle that has not run, with this task in it.
    abbrev pub fresh_handle : Task → Option H → AerTask H
    fresh_handle task cancel = record { inner = some task; has_run = false; cancel = cancel }

    abbrev answer : Option (Task → Task) → Task → Option H → Option C → Reply C H
    answer none task cancel msg =
        (AerErrorCode.invalid_argument, some (fresh_handle task cancel), msg)
    answer (some build) task cancel msg =
        (AerErrorCode.ok, some (fresh_handle (build task) cancel), clear_last_error)

    set_env-builder :
        (key value : C) (task : Task) (cancel : Option H) (msg : Option C)
        → aer_task_set_env to_str (some (fresh_handle task cancel)) (some key) (some value) msg
          ≡ answer (env_builder (to_str key) (to_str value)) task cancel msg
    unfolding aer_task_set_env
    set_env-builder key value task cancel msg = elim (Option-cases (to_str key)) [
      | inl e ↦ rw e refl
      | inr (k, e) ↦ elim (Option-cases (to_str value)) [
        | inl f ↦ rw (e, f) refl
        | inr (v, f) ↦ rw (e, f) (ground arith)
      ]
    ]

    set_cwd-builder :
        (path : C) (task : Task) (cancel : Option H) (msg : Option C)
        → aer_task_set_cwd to_str (some (fresh_handle task cancel)) (some path) msg
          ≡ answer (cwd_builder (to_str path)) task cancel msg
    unfolding aer_task_set_cwd
    set_cwd-builder path task cancel msg = elim (Option-cases (to_str path)) [
      | inl e ↦ rw e refl
      | inr (p, e) ↦ rw e (ground arith)
    ]

    answer-handle :
        (b : Option (Task → Task)) (task : Task) (cancel : Option H) (msg : Option C)
        → (answer b task cancel msg).1 ≡ some (fresh_handle (build_with b task) cancel)
    answer-handle none task cancel msg = refl
    answer-handle (some build) task cancel msg = refl

    answer-message :
        (b : Option (Task → Task)) (task : Task) (cancel : Option H) (msg : Option C)
        → (answer b task cancel msg).2 ≡ cleared b msg
    answer-message none task cancel msg = refl
    answer-message (some build) task cancel msg = refl

    call-builder :
        (c : FfiCall C) (cs : List (FfiCall C)) (task : Task) (cancel : Option H) (msg : Option C)
        → AllSetters (c ∷ cs)
        → (call to_str cstring show_io payload execute c (some (fresh_handle task cancel)) msg
            ≡ answer (builder c) task cancel msg)
          × AllSetters cs
    unfolding call configure aer_task_with_timeout aer_task_with_capture_output
        aer_task_set_clear_env aer_task_set_env aer_task_set_cwd
    call-builder (FfiCall.with_timeout ms) cs task cancel msg h = (refl, h)
    call-builder (FfiCall.with_capture_output b) cs task cancel msg h = (refl, h)
    call-builder (FfiCall.set_clear_env b) cs task cancel msg h = (refl, h)
    call-builder (FfiCall.set_env key value) cs task cancel msg h =
        (set_env-builder key value task cancel msg, h)
    call-builder (FfiCall.set_cwd path) cs task cancel msg h =
        (set_cwd-builder path task cancel msg, h)
    call-builder FfiCall.run cs task cancel msg h = absurd h

    -- As long as the task has not run, a sequence of setter calls leaves in the handle the task that
    -- the builder methods make when they are called in the same order with the same arguments, less
    -- the calls that are refused: those with a string that is not UTF-8, with a key that is empty or
    -- contains '=', or with an empty path. The last error is cleared if a call was accepted, and
    -- otherwise the one from before.
    pub calls-built :
        (cs : List (FfiCall C)) (task : Task) (cancel : Option H) (msg : Option C)
        → AllSetters cs
        → calls to_str cstring show_io payload execute cs (some (fresh_handle task cancel)) msg
          ≡ (some (fresh_handle (built cs task) cancel), last_message cs msg)
    unfolding calls
    calls-built [] task cancel msg h = refl
    calls-built (c ∷ cs) task cancel msg h =
        let (answered, setters) = call-builder c cs task cancel msg h in
        rw
          (
            answered,
            answer-handle (builder c) task cancel msg,
            answer-message (builder c) task cancel msg,
          )
          (calls-built cs (build_with (builder c) task) cancel (cleared (builder c) msg) setters)
