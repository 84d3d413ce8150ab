-- ===== src/Ffi/Frozen.antt =====
-- A task handle of src/ffi.rs runs once.
use aer_core.Base.{ℕ, String, Bool, true, ◌≡◌, refl, ◌∙◌, Option, none, some, List, [], ◌∷◌, arith}
use aer_core.Task.{Task}
use aer_core.Run.System.{Outcome}
use aer_core.Ffi.Codes.{AerErrorCode}
use aer_core.Ffi.Handles.{
  AerTask, Reply, aer_task_with_timeout, aer_task_with_capture_output, aer_task_set_clear_env,
  aer_task_set_env, aer_task_set_cwd,
}
use aer_core.Ffi.Run.{aer_task_run, aer_task_make_cancel_handle}

-- The functions that take a task handle and return a code, with non-null string arguments.
pub data FfiCall (C : Type 0) : Type 0 where
  with_timeout : ℕ → FfiCall C
  with_capture_output set_clear_env : Bool → FfiCall C
  set_env : (key value : C) → FfiCall C
  set_cwd : C → FfiCall C
  run : FfiCall C

-- What a C caller does with a task handle: one of these calls, or it makes a cancel handle.
pub data HandleUse (C H : Type 0) : Type 0 where
  returning : FfiCall C → HandleUse C H
  make_cancel_handle : (fresh : H) → HandleUse C H

-- A handle that has run, with the task that it had.
abbrev pub HasRun : {H : Type 0} → Option Task → Option (AerTask H) → Type 0
HasRun inner none = ⊥
HasRun inner (some t) = (t.has_run ≡ true) × (t.inner ≡ inner)

module _ {C H E : Type 0} (to_str : C → Option String) (cstring : String → Option C)
    (show_io : E → String) (payload : Option String) (execute : Task → Option H → Outcome E) where
  unfoldable pub call : FfiCall C → Option (AerTask H) → Option C → Reply C H
  unfolding aer_task_with_timeout aer_task_with_capture_output aer_task_set_clear_env
      aer_task_set_env aer_task_set_cwd aer_task_run
  call (with_timeout ms) task msg = aer_task_with_timeout task ms msg
  call (with_capture_output b) task msg = aer_task_with_capture_output task b msg
  call (set_clear_env b) task msg = aer_task_set_clear_env task b msg
  call (set_env key value) task msg = aer_task_set_env to_str task (some key) (some value) msg
  call (set_cwd path) task msg = aer_task_set_cwd to_str task (some path) msg
  call run task msg = aer_task_run cstring show_io payload execute task msg

  -- The handle and the message after a sequence of calls.
  unfoldable pub calls :
      List (FfiCall C) → Option (AerTask H) → Option C → Option (AerTask H) × Option C
  unfolding call
  calls [] task msg = (task, msg)
  calls (c ∷ cs) task msg = let r = call c task msg in calls cs r.1 r.2

  call_after_run :
      (c : FfiCall C) (t : AerTask H) (msg : Option C)
      → t.has_run ≡ true
      → call c (some t) msg ≡ (AerErrorCode.already_run, some t, msg)
  unfolding call
  call_after_run (with_timeout ms) t msg h = ground arith
  call_after_run _ t msg h = ground arith

  run-has_run :
      (t : AerTask H) (msg : Option C)
      → (t' : AerTask H) × ((call run (some t) msg).1 ≡ some t')
        × (t'.has_run ≡ true)
        × (t'.inner ≡ t.inner)
  unfolding call
  run-has_run t msg = (record t { has_run = true }, ground arith, refl, refl)

  unfoldable pub apply_use :
      HandleUse C H → Option (AerTask H) → Option C → Option (AerTask H) × Option C
  unfolding call aer_task_make_cancel_handle
  apply_use (returning c) task msg = let r = call c task msg in (r.1, r.2)
  apply_use (make_cancel_handle fresh) task msg = ((aer_task_make_cancel_handle fresh task).1, msg)

  -- The handle and the message after a sequence of uses.
  unfoldable pub apply_uses :
      List (HandleUse C H) → Option (AerTask H) → Option C → Option (AerTask H) × Option C
  unfolding apply_use
  apply_uses [] task msg = (task, msg)
  apply_uses (u ∷ us) task msg =
      let (task', msg') = apply_use u task msg in apply_uses us task' msg'

  call-HasRun :
      (c : FfiCall C) (inner : Option Task) (task : Option (AerTask H)) (msg : Option C)
      → HasRun inner task
      → call c task msg ≡ (AerErrorCode.already_run, task, msg)
  call-HasRun c inner none msg h = absurd h
  call-HasRun c inner (some t) msg h = call_after_run c t msg h.0

  apply_use-HasRun :
      (u : HandleUse C H) (inner : Option Task) (task : Option (AerTask H)) (msg : Option C)
      → HasRun inner task
      → HasRun inner (apply_use u task msg).0 × ((apply_use u task msg).1 ≡ msg)
  unfolding apply_use
  apply_use-HasRun (returning c) inner task msg h = rw (call-HasRun c inner task msg h) (h, refl)
  apply_use-HasRun (make_cancel_handle fresh) inner none msg h = absurd h
  apply_use-HasRun (make_cancel_handle fresh) inner (some t) msg h = (h, refl)

  apply_uses-HasRun :
      (us : List (HandleUse C H)) (inner : Option Task) (task : Option (AerTask H)) (msg : Option C)
      → HasRun inner task
      → HasRun inner (apply_uses us task msg).0 × ((apply_uses us task msg).1 ≡ msg)
  unfolding apply_uses
  apply_uses-HasRun [] inner task msg h = (h, refl)
  apply_uses-HasRun (u ∷ us) inner task msg h =
      let (ran, same) = apply_use-HasRun u inner task msg h in
      let (still, kept) = apply_uses-HasRun us inner _ (apply_use u task msg).1 ran in
      (still, kept ∙ same)

  -- After `aer_task_run` on a handle, whatever its outcome, and after any uses of the handle since, which
  -- may make cancel handles: the handle's task and the last error are those that the run left,
  -- and a setter with no NULL for a string, or a further run, returns `AlreadyRun` and changes
  -- neither the handle nor the last error.
  pub run_once :
      (us : List (HandleUse C H)) (c : FfiCall C) (t : AerTask H) (msg : Option C)
      → let r = call run (some t) msg in
        let (task, left) = apply_uses us r.1 r.2 in
        HasRun t.inner task
        × (left ≡ r.2)
        × (call c task left ≡ (AerErrorCode.already_run, task, left))
  run_once us c t msg =
      let (t', e, ran, same) = run-has_run t msg in
      let r = call run (some t) msg in
      let (still, kept) = apply_uses-HasRun us t.inner r.1 r.2 (rw e (ran, same)) in
      (still, kept, call-HasRun c t.inner _ _ still)
