-- ===== src/Task/Examples.antt =====
-- The builder methods of src/task.rs at concrete calls.
use aer_core.Base.{String, false, ◌≡◌, refl, none, List, [], ◌∷◌}
use aer_core.Task.{Task, set_entry, with_env}
use aer_core.Task.Env.{get_entry, Unique, with_envs, last_call, with_envs-last_call}

abbrev shell : Task
shell = record {
  program = "sh";
  args = [];
  timeout = none;
  capture_output = false;
  env = ("PATH", "/bin") ∷ [];
  clear_env = false;
  cwd = none;
}

abbrev settings : List (String × String)
settings = ("LANG", "C") ∷ ("PATH", "/usr/bin") ∷ ("LANG", "en") ∷ []

-- A later call for a key replaces its value and keeps its place.
replaced : (with_envs shell settings).env ≡ ("PATH", "/usr/bin") ∷ ("LANG", "en") ∷ []
unfolding with_envs with_env set_entry
replaced = refl

path-Unique : Unique (("PATH", "/bin") ∷ [])
unfolding get_entry
path-Unique = (refl, tt)

with_envs-last_call_example :
    Unique (with_envs shell settings).env
    × ((j : String)
        → get_entry j (with_envs shell settings).env
          ≡ last_call j settings (get_entry j (("PATH", "/bin") ∷ [])))
with_envs-last_call_example = with_envs-last_call shell settings path-Unique
