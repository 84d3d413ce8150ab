-- ===== src/Os/Command.antt =====
-- How both platform layers build the `Command` of a process (src/os/unix.rs and src/os/windows.rs,
-- `spawn`), and the environment that its child gets. `Command` belongs to std: what its methods do
-- to the child's environment is the parameter `apply`.
use text.Mathlib.Text.{◌==◌}
use text.Mathlib.TextEquality.{eq_iff}
use aer_core.Base.{
  String, Bool, true, false, ◌≡◌, refl, ap, ◌∙◌, Option, none, some, List, [], ◌∷◌, ◌++◌, arith,
  if◌then◌else◌,
}
use aer_core.Os.{SpawnOptions}
use aer_core.Task.Env.{get_entry, Unique}

-- The methods of `Command` that `spawn` calls.
pub data CommandCall : Type 0 where
  program : String → CommandCall
  args : List String → CommandCall
  stdin_null stdout_piped stderr_piped : CommandCall
  env_clear : CommandCall
  env : (key value : String) → CommandCall
  current_dir : String → CommandCall

-- the loop over `options.env`
env_calls : List (String × String) → List CommandCall
env_calls [] = []
env_calls ((k, v) ∷ entries) = env k v ∷ env_calls entries

clear_calls : Bool → List CommandCall
clear_calls clear = if clear then env_clear ∷ [] else []

cwd_calls : Option String → List CommandCall
cwd_calls none = []
cwd_calls (some path) = current_dir path ∷ []

-- The calls that `spawn` makes, in order.
unfoldable pub command_calls : String → List String → SpawnOptions → List CommandCall
unfolding env_calls clear_calls cwd_calls
command_calls prog arguments options =
    program prog
    ∷ args arguments
    ∷ stdin_null
    ∷ stdout_piped
    ∷ stderr_piped
    ∷ (clear_calls options.clear_env ++ (env_calls options.env ++ cwd_calls options.cwd))

abbrev pub Environment : Type 0
Environment = String → Option String

-- What std documents of `Command` on Unix, where names of variables are compared as they are; on
-- Windows they are compared without regard to case. The child inherits the parent's environment; `env_clear` removes
-- every variable, `env` sets one, and the other methods leave the environment alone.
pub record UnixCommandLaws (apply : CommandCall → Environment → Environment) : Type 0 where
  pub apply-env_clear : (e : Environment) (j : String) → apply env_clear e j ≡ none
  pub apply-env :
      (e : Environment) (k v j : String) → apply (env k v) e j ≡ (if k == j then some v else e j)
  pub apply-program : (e : Environment) (p j : String) → apply (program p) e j ≡ e j
  pub apply-args : (e : Environment) (l : List String) (j : String) → apply (args l) e j ≡ e j
  pub apply-stdin : (e : Environment) (j : String) → apply stdin_null e j ≡ e j
  pub apply-stdout : (e : Environment) (j : String) → apply stdout_piped e j ≡ e j
  pub apply-stderr : (e : Environment) (j : String) → apply stderr_piped e j ≡ e j
  pub apply-current_dir : (e : Environment) (p j : String) → apply (current_dir p) e j ≡ e j

abbrev pub or_else {ℓ} : {A : Type ℓ} → Option A → Option A → Option A
or_else none d = d
or_else (some v) d = some v

-- What a variable is in the child, by section 4.1 of the specification.
abbrev pub expected : SpawnOptions → Environment → Environment
expected options parent j =
    or_else (get_entry j options.env) (if options.clear_env then none else parent j)

-- The environment after a sequence of calls.
pub apply_calls :
    (CommandCall → Environment → Environment) → List CommandCall → Environment → Environment
apply_calls apply [] e = e
apply_calls apply (c ∷ calls) e = apply_calls apply calls (apply c e)

module _ (apply : CommandCall → Environment → Environment) (laws : UnixCommandLaws apply) where
  apply_calls-append :
      (before after : List CommandCall) (e : Environment)
      → apply_calls apply (before ++ after) e ≡ apply_calls apply after (apply_calls apply before e)
  unfolding apply_calls
  apply_calls-append [] after e = refl
  apply_calls-append (c ∷ before) after e = apply_calls-append before after (apply c e)

  apply_calls-env_calls :
      (entries : List (String × String)) (e : Environment) (j : String)
      → Unique entries
      → apply_calls apply (env_calls entries) e j ≡ or_else (get_entry j entries) (e j)
  unfolding apply_calls env_calls get_entry
  apply_calls-env_calls [] e j u = refl
  apply_calls-env_calls ((k, v) ∷ entries) e j u =
      apply_calls-env_calls entries (apply (env k v) e) j u.1
      ∙ ground (arith, laws.apply-env e k v j, eq_iff k j)

  apply_calls-cwd_calls :
      (cwd : Option String) (e : Environment) (j : String)
      → apply_calls apply (cwd_calls cwd) e j ≡ e j
  unfolding apply_calls cwd_calls
  apply_calls-cwd_calls none e j = refl
  apply_calls-cwd_calls (some path) e j = laws.apply-current_dir e path j

  apply_calls-clear_calls :
      (clear : Bool) (e : Environment) (j : String)
      → apply_calls apply (clear_calls clear) e j ≡ (if clear then none else e j)
  unfolding apply_calls clear_calls
  apply_calls-clear_calls true e j = laws.apply-env_clear e j
  apply_calls-clear_calls false e j = refl

  -- The five calls before the environment.
  apply_calls-head :
      (prog : String) (arguments : List String) (rest : List CommandCall) (e : Environment)
      → (e' : Environment) × (apply_calls apply
            (program prog ∷ args arguments ∷ stdin_null ∷ stdout_piped ∷ stderr_piped ∷ rest)
            e
          ≡ apply_calls apply rest e')
        × ((j : String) → e' j ≡ e j)
  unfolding apply_calls
  apply_calls-head prog arguments rest e = (
    _,
    refl,
    λ j.
        laws.apply-stderr _ j
        ∙ laws.apply-stdout _ j
        ∙ laws.apply-stdin _ j
        ∙ laws.apply-args _ arguments j
        ∙ laws.apply-program e prog j,
  )

  -- On Unix, if std's `Command` behaves as documented and no key has two entries in the options, the child
  -- that `spawn` starts sees of each variable the value set for it; of a variable that is not set,
  -- the parent's value if `clear_env` is off, and nothing if it is on.
  pub child_environment :
      (prog : String) (arguments : List String) (options : SpawnOptions)
      → Unique options.env
      → (parent : Environment) (j : String)
      → apply_calls apply (command_calls prog arguments options) parent j
        ≡ expected options parent j
  unfolding command_calls
  child_environment prog arguments options u parent j =
      let (e', start, inherited) =
        apply_calls-head prog arguments (clear_calls clear_env ++ (env_calls env ++ cwd_calls cwd))
          parent in
      let cleared : Environment = apply_calls apply (clear_calls clear_env) e' in
      ap (at j) start
      ∙ ap (at j) (apply_calls-append (clear_calls clear_env) _ e')
      ∙ ap (at j) (apply_calls-append (env_calls env) (cwd_calls cwd) cleared)
      ∙ apply_calls-cwd_calls cwd _ j
      ∙ apply_calls-env_calls env cleared j u
      ∙ ap (or_else (get_entry j env)) (
          apply_calls-clear_calls clear_env e' j
          ∙ ap (λ (v : Option String). if clear_env then none else v) (inherited j))
    where
      open options use {env, clear_env, cwd}

      at : String → Environment → Option String
      at j e = e j
