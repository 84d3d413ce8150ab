-- ===== src/Ffi/ChildEnv.antt =====
-- From C to the child, on Unix: the environment that src/ffi.rs, src/task.rs and the platform layer give to
-- the child of a task.
use text.Mathlib.Text.{◌==◌}
use aer_core.Base.{
  ℕ, String, Bool, false, ◌≡◌, refl, ap, ◌∙◌, Option, none, some, List, [], ◌∷◌, if◌then◌else◌,
  Option-cases, Bool-cases, ◌*◌, ◌^◌, inl, inr,
}
use aer_core.Task.{Task, new, with_timeout, with_capture_output, with_env, with_clear_env, with_cwd}
use aer_core.Task.Env.{get_entry, Unique, set_entry-Unique, get_entry-set_entry}
use aer_core.Os.Command.{
  CommandCall, command_calls, Environment, UnixCommandLaws, or_else, apply_calls, child_environment,
}
use aer_core.Run.System.{Outcome}
use aer_core.Run.Direct.{spawn_options}
use aer_core.Ffi.Create.{aer_task_new, aer_task_new-IsMadeFrom}
use aer_core.Ffi.Handles.{AerTask, is_empty, is_invalid_key}
use aer_core.Ffi.Frozen.{FfiCall, calls}
use aer_core.Ffi.Builder.{AllSetters, builder, build_with, built, calls-built}

module _ {C : Type 0} (to_str : C → Option String) where
  -- The value that a key has after a call of `aer_task_set_env`, from the one before.
  abbrev value_after : String → (key value : Option String) → Option String → Option String
  value_after j (some k) (some v) before =
      if is_invalid_key k then before else if k == j then some v else before
  value_after j _ _ before = before

  -- The value that the last accepted call of `aer_task_set_env` for a key gave it.
  abbrev pub last_set : String → List (FfiCall C) → Option String → Option String
  last_set j [] before = before
  last_set j (FfiCall.set_env key value ∷ cs) before =
      last_set j cs (value_after j (to_str key) (to_str value) before)
  last_set j (c ∷ cs) before = last_set j cs before

  -- What the last call of `aer_task_set_clear_env` asked for.
  abbrev pub last_clear : List (FfiCall C) → Bool → Bool
  last_clear [] before = before
  last_clear (FfiCall.set_clear_env b ∷ cs) before = last_clear cs b
  last_clear (c ∷ cs) before = last_clear cs before

  -- A task with one entry for each key at most, these values and this `clear_env`.
  abbrev HasEnv : (String → Option String) → Bool → Task → Type 0
  HasEnv values clear t =
      Unique t.env × ((j : String) → get_entry j t.env ≡ values j) × (t.clear_env ≡ clear)

  set_env-HasEnv :
      (key value : C) (values : String → Option String) (clear : Bool) (t : Task)
      → HasEnv values clear t
      → HasEnv
          (λ j. value_after j (to_str key) (to_str value) (values j))
          clear
          (build_with to_str (builder to_str (FfiCall.set_env key value)) t)
  unfolding with_env
  set_env-HasEnv key value values clear t (unique, has, same) = elim (Option-cases (to_str key)) [
    | inl e ↦ rw e (unique, has, same)
    | inr (k, e) ↦ elim (Option-cases (to_str value)) [
      | inl f ↦ rw (e, f) (unique, has, same)
      | inr (v, f) ↦ elim (Bool-cases (is_invalid_key k)) [
        | inl g ↦ rw (e, f, g) (unique, has, same)
        | inr g ↦
            rw (e, f, g)
              (
                set_entry-Unique k v t.env unique,
                (λ j.
                    get_entry-set_entry j k v t.env
                    ∙ ap (λ (x : Option String). if k == j then some v else x) (has j)),
                same,
              )
      ]
    ]
  ]

  set_cwd-HasEnv :
      (path : C) (values : String → Option String) (clear : Bool) (t : Task)
      → HasEnv values clear t
      → HasEnv values clear (build_with to_str (builder to_str (FfiCall.set_cwd path)) t)
  unfolding with_cwd
  set_cwd-HasEnv path values clear t h = elim (Option-cases (to_str path)) [
    | inl e ↦ rw e h
    | inr (p, e) ↦ elim (Bool-cases (is_empty p)) [ inl g ↦ rw (e, g) h | inr g ↦ rw (e, g) h ]
  ]

  built-HasEnv :
      (cs : List (FfiCall C)) (values : String → Option String) (clear : Bool) (t : Task)
      → AllSetters cs
      → HasEnv values clear t
      → HasEnv (λ j. last_set j cs (values j)) (last_clear cs clear) (built to_str cs t)
  unfolding with_timeout with_capture_output with_clear_env
  built-HasEnv [] values clear t setters h = h
  built-HasEnv (FfiCall.with_timeout ms ∷ cs) values clear t setters h =
      built-HasEnv cs values clear (with_timeout t (ms * 10 ^ 6)) setters h
  built-HasEnv (FfiCall.with_capture_output b ∷ cs) values clear t setters h =
      built-HasEnv cs values clear (with_capture_output t b) setters h
  built-HasEnv (FfiCall.set_clear_env b ∷ cs) values clear t setters (unique, has, same) =
      built-HasEnv cs values b (with_clear_env t b) setters (unique, has, refl)
  built-HasEnv (FfiCall.set_env key value ∷ cs) values clear t setters h =
      built-HasEnv cs _ clear _ setters (set_env-HasEnv key value values clear t h)
  built-HasEnv (FfiCall.set_cwd path ∷ cs) values clear t setters h =
      built-HasEnv cs _ clear _ setters (set_cwd-HasEnv path values clear t h)
  built-HasEnv (FfiCall.run ∷ cs) values clear t setters h = absurd setters

  -- What a variable is in the child of a task that a C program has set up with these calls.
  abbrev pub requested : List (FfiCall C) → Environment → Environment
  requested cs parent j =
      or_else (last_set j cs none) (if last_clear cs false then none else parent j)

  -- On Unix, where names of variables are compared as they are, if std's `Command` behaves as
  -- documented: when a C program has made a task with `aer_task_new`
  -- and called any setters on it, and the task is run, then the child sees of each variable the
  -- value that the last accepted `aer_task_set_env` for it gave; of a variable without one, the
  -- parent's value, or nothing if the last `aer_task_set_clear_env` asked for that.
  pub child_of_calls :
      {H E : Type 0} (apply : CommandCall → Environment → Environment)
      → UnixCommandLaws apply
      → (cstring : String → Option C) (show_io : E → String) (payload : Option String)
        (execute : Task → Option H → Outcome E) (program : Option C) (args : Option (ℕ → Option C))
        (args_len : ℕ) (t : AerTask H)
      → aer_task_new to_str program args args_len ≡ some t
      → (cs : List (FfiCall C)) (msg : Option C) → AllSetters cs
      → (parent : Environment) (j : String)
      → (task : Task) × ((calls to_str cstring show_io payload execute cs (some t) msg).0
          ≡ some (record { inner = some task; has_run = false; cancel = none }))
        × (apply_calls apply (command_calls task.program task.args (spawn_options task)) parent j
            ≡ requested cs parent j)
  unfolding new spawn_options get_entry
  child_of_calls {H = H} apply laws cstring show_io payload execute program args args_len t made cs
        msg setters parent j =
      let (p, prog, arguments, given, text, short, all, same) =
        aer_task_new-IsMadeFrom to_str program args args_len t made in
      let task = built to_str cs (new prog arguments) in
      let (unique, has, clear) : HasEnv (λ j. last_set j cs none) (last_clear cs false) task =
        built-HasEnv cs (λ j. none) false (new prog arguments) setters (tt, (λ j. refl), refl) in
      (
        task,
        rw same (
            ap (λ (x : Option (AerTask H) × Option C). x.0)
              (calls-built to_str cstring show_io payload execute cs (new prog arguments) none msg
                setters)),
        child_environment apply laws task.program task.args (spawn_options task) unique parent j
            ∙ rw (has j, clear) refl,
      )
