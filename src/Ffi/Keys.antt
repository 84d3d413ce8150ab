-- ===== src/Ffi/Keys.antt =====
-- The environment keys that reach a task through src/ffi.rs.
use Prim.Native.Char.{code}
use text.Mathlib.Text.{◌==◌}
use aer_core.Base.{
  ℕ, String, true, false, ◌≡◌, ◌≢◌, refl, sym, ap, ◌∙◌, if_cases, Option, none, some, List, [], ◌∷◌,
  arith, Option-cases, inl, inr,
}
use aer_core.Task.{
  Task, new, set_entry, with_env, with_timeout, with_capture_output, with_clear_env, with_cwd,
}
use aer_core.Task.Env.{Unique, set_entry-Unique}
use aer_core.Run.System.{Outcome}
use aer_core.Ffi.Create.{aer_task_new}
use aer_core.Ffi.Run.{aer_task_run, aer_task_make_cancel_handle}
use aer_core.Ffi.Handles.{
  AerTask, is_empty, contains_eq, is_invalid_key, configure, aer_task_set_env, aer_task_set_cwd,
  aer_task_with_timeout, aer_task_with_capture_output, aer_task_set_clear_env,
}
use aer_core.Ffi.Frozen.{FfiCall, call, HandleUse, apply_use, apply_uses}

-- Every character is another than '='.
abbrev pub NoEquals : String → Type 0
NoEquals String.[] = Unit
NoEquals (String.◌∷◌ c s) = (code c ≢ b'=') × NoEquals s

-- Every key has a character, and has no '='.
abbrev pub ValidKeys : List (String × String) → Type 0
ValidKeys [] = Unit
ValidKeys ((k, v) ∷ env) = (k ≢ "") × NoEquals k × ValidKeys env

contains_eq-NoEquals : (s : String) → contains_eq s ≡ false → NoEquals s
unfolding contains_eq
contains_eq-NoEquals String.[] h = tt
contains_eq-NoEquals (String.◌∷◌ c s) h = (λ e. ground arith, contains_eq-NoEquals s (ground arith))

is_empty-ne-empty : (s : String) → is_empty s ≡ false → s ≢ ""
unfolding is_empty
is_empty-ne-empty s h e = let empty : true ≡ false = sym (ap is_empty e) ∙ h in cc

is_invalid_key-NoEquals : (k : String) → is_invalid_key k ≡ false → (k ≢ "") × NoEquals k
unfolding is_invalid_key
is_invalid_key-NoEquals k h =
    (is_empty-ne-empty k (ground arith), contains_eq-NoEquals k (ground arith))

abbrev Sound : Option Task → Type 0
Sound none = Unit
Sound (some t) = ValidKeys t.env × Unique t.env

-- A handle whose task, if it has one, has valid environment keys, each once.
abbrev pub IsSound : {H : Type 0} → Option (AerTask H) → Type 0
IsSound none = Unit
IsSound (some t) = Sound t.inner

set_entry-ValidKeys :
    (k v : String) (env : List (String × String))
    → (k ≢ "") × NoEquals k
    → ValidKeys env
    → ValidKeys (set_entry k v env)
unfolding set_entry
set_entry-ValidKeys k v [] h a = (h.0, h.1, tt)
set_entry-ValidKeys k v ((i, w) ∷ env) h (ne, no_eq, a) =
    if_cases ValidKeys (i == k) (ne, no_eq, a) (ne, no_eq, set_entry-ValidKeys k v env h a)

-- Setting a valid key keeps the entries sound.
set_entry-Sound :
    (k v : String) (t : Task)
    → is_invalid_key k ≡ false
    → Sound (some t)
    → Sound (some (with_env t k v))
unfolding with_env
set_entry-Sound k v t h (valid, unique) = (
  set_entry-ValidKeys k v t.env (is_invalid_key-NoEquals k h) valid,
  set_entry-Unique k v t.env unique,
)

module _ {C H E : Type 0} (to_str : C → Option String) (cstring : String → Option C)
    (show_io : E → String) (payload : Option String) (execute : Task → Option H → Outcome E) where
  configure-IsSound :
      (build : Task → Task) (t : AerTask H) (msg : Option C)
      → ((inner : Task) → (build inner).env ≡ inner.env)
      → IsSound (some t)
      → IsSound (configure build (some t) msg).1
  unfolding configure
  configure-IsSound build t msg same h = elim (Option-cases t.inner) [
    | inl e ↦ ground arith
    | inr (inner, e) ↦ ground (arith, same inner)
  ]

  set_env-IsSound :
      (t : AerTask H) (key value : C) (msg : Option C)
      → IsSound (some t)
      → IsSound (aer_task_set_env to_str (some t) (some key) (some value) msg).1
  unfolding aer_task_set_env
  set_env-IsSound t key value msg h = elim (Option-cases t.inner) [
    | inl e ↦ ground arith
    | inr (inner, e) ↦ elim (Option-cases (to_str key)) [
      | inl f ↦ ground arith
      | inr (k, f) ↦ elim (Option-cases (to_str value)) [
        | inl g ↦ ground arith
        | inr (v, g) ↦ ground (arith, set_entry-Sound k v inner)
      ]
    ]
  ]

  set_cwd-IsSound :
      (t : AerTask H) (path : C) (msg : Option C)
      → IsSound (some t)
      → IsSound (aer_task_set_cwd to_str (some t) (some path) msg).1
  unfolding aer_task_set_cwd with_cwd
  set_cwd-IsSound t path msg h = elim (Option-cases t.inner) [
    | inl e ↦ ground arith
    | inr (inner, e) ↦ ground arith
  ]

  run-IsSound :
      (t : AerTask H) (msg : Option C)
      → IsSound (some t)
      → IsSound (aer_task_run cstring show_io payload execute (some t) msg).1
  unfolding aer_task_run
  run-IsSound t msg h = ground arith

  call-IsSound :
      (c : FfiCall C) (task : Option (AerTask H)) (msg : Option C)
      → IsSound task
      → IsSound (call to_str cstring show_io payload execute c task msg).1
  unfolding call aer_task_with_timeout aer_task_with_capture_output aer_task_set_clear_env
      with_timeout with_capture_output with_clear_env
  call-IsSound (FfiCall.with_timeout ms) (some t) msg h = configure-IsSound _ t msg (λ i. refl) h
  call-IsSound (FfiCall.with_capture_output b) (some t) msg h =
      configure-IsSound _ t msg (λ i. refl) h
  call-IsSound (FfiCall.set_clear_env b) (some t) msg h = configure-IsSound _ t msg (λ i. refl) h
  call-IsSound (FfiCall.set_env key value) (some t) msg h = set_env-IsSound t key value msg h
  call-IsSound (FfiCall.set_cwd path) (some t) msg h = set_cwd-IsSound t path msg h
  call-IsSound FfiCall.run (some t) msg h = run-IsSound t msg h
  call-IsSound (FfiCall.with_timeout ms) none msg h = tt
  call-IsSound (FfiCall.with_capture_output b) none msg h = tt
  call-IsSound (FfiCall.set_clear_env b) none msg h = tt
  call-IsSound (FfiCall.set_env key value) none msg h = tt
  call-IsSound (FfiCall.set_cwd path) none msg h = tt
  call-IsSound FfiCall.run none msg h = tt

  apply_use-IsSound :
      (u : HandleUse C H) (task : Option (AerTask H)) (msg : Option C)
      → IsSound task
      → IsSound (apply_use to_str cstring show_io payload execute u task msg).0
  unfolding apply_use aer_task_make_cancel_handle
  apply_use-IsSound (HandleUse.returning c) task msg h = call-IsSound c task msg h
  apply_use-IsSound (HandleUse.make_cancel_handle fresh) none msg h = h
  apply_use-IsSound (HandleUse.make_cancel_handle fresh) (some t) msg h = h

  apply_uses-IsSound :
      (us : List (HandleUse C H)) (task : Option (AerTask H)) (msg : Option C)
      → IsSound task
      → IsSound (apply_uses to_str cstring show_io payload execute us task msg).0
  unfolding apply_uses
  apply_uses-IsSound [] task msg h = h
  apply_uses-IsSound (u ∷ us) task msg h =
      apply_uses-IsSound us _ _ (apply_use-IsSound u task msg h)

  new-IsSound :
      (program : Option C) (args : Option (ℕ → Option C)) (args_len : ℕ)
      → IsSound {H = H} (aer_task_new to_str program args args_len)
  unfolding aer_task_new new
  new-IsSound program args args_len = ground arith

  -- Whatever a C caller does with a handle that `aer_task_new` returned, in any order: setters with any
  -- arguments but NULL, runs and new cancel handles. No key in the environment of its task is
  -- the empty string, none contains the character '=', and each key is there once.
  pub calls_keep_keys :
      (program : Option C) (args : Option (ℕ → Option C)) (args_len : ℕ) (us : List (HandleUse C H))
      (msg : Option C)
      → IsSound
          (apply_uses to_str cstring show_io payload execute us
            (aer_task_new to_str program args args_len)
            msg).0
  calls_keep_keys program args args_len us msg =
      apply_uses-IsSound us _ msg (new-IsSound program args args_len)
