-- ===== src/Task/Env.antt =====
-- The environment entries that `Task::with_env` of src/task.rs collects.
use text.Mathlib.Text.{◌==◌}
use text.Mathlib.TextEquality.{eq_iff}
use aer_core.Base.{
  String, ◌≡◌, refl, ap, ◌∙◌, Option, none, some, List, [], ◌∷◌, arith, if◌then◌else◌,
}
use aer_core.Task.{Task, set_entry, with_env}

-- The value of the first entry for a key.
unfoldable pub get_entry : String → List (String × String) → Option String
get_entry j [] = none
get_entry j ((k, v) ∷ env) = if k == j then some v else get_entry j env

-- No key has two entries.
abbrev pub Unique : List (String × String) → Type 0
Unique [] = Unit
Unique ((k, v) ∷ env) = (get_entry k env ≡ none) × Unique env

-- Setting an entry gives its key the new value and leaves the values of all other keys.
pub get_entry-set_entry :
    (j k v : String) (env : List (String × String))
    → get_entry j (set_entry k v env) ≡ (if k == j then some v else get_entry j env)
unfolding get_entry set_entry
get_entry-set_entry j k v [] = refl
get_entry-set_entry j k v ((i, w) ∷ env) =
    ground (arith, eq_iff k j, eq_iff i k, eq_iff i j, get_entry-set_entry j k v env)

pub set_entry-Unique :
    (k v : String) (env : List (String × String)) → Unique env → Unique (set_entry k v env)
unfolding get_entry set_entry
set_entry-Unique k v [] u = (refl, tt)
set_entry-Unique k v ((i, w) ∷ env) u =
    ground
      (arith, eq_iff i k, eq_iff k i, get_entry-set_entry i k v env, set_entry-Unique k v env u.1)

-- A sequence of `with_env` calls on one task.
unfoldable pub with_envs : Task → List (String × String) → Task
with_envs t [] = t
with_envs t ((k, v) ∷ calls) = with_envs (with_env t k v) calls

-- The value that the last call for a key gave it.
pub last_call : String → List (String × String) → Option String → Option String
last_call j [] value = value
last_call j ((k, v) ∷ calls) value = last_call j calls (if k == j then some v else value)

-- After any sequence of `with_env` calls on a task that has one entry for each key at most, the
-- task still has, and the value of each key is the one that the last call for it gave, or the one
-- from before if there was none.
pub with_envs-last_call :
    (t : Task) (calls : List (String × String))
    → Unique t.env
    → Unique (with_envs t calls).env
      × ((j : String) → get_entry j (with_envs t calls).env ≡ last_call j calls (get_entry j t.env))
unfolding with_envs with_env last_call
with_envs-last_call t [] u = (u, λ j. refl)
with_envs-last_call t ((k, v) ∷ calls) u =
    let (unique, last) =
      with_envs-last_call (with_env t k v) calls (set_entry-Unique k v t.env u) in
    (unique, λ j. last j ∙ ap (last_call j calls) (get_entry-set_entry j k v t.env))
