-- ===== src/Os/Windows/Examples.antt =====
-- The job objects of src/os/windows.rs on a system where one call can fail.
use aer_core.Base.{if◌then◌else◌, ◌==◌, ◌+◌, false, ◌≡◌, refl, none, [], ◌∷◌, err}
use aer_core.Error.{spawn_failed}
use aer_core.Os.{SpawnOptions}
use aer_core.Os.Windows.{
  created, limited, closed, spawned, reaped, spawn, close_job, drop_job, reap_child,
}
use aer_core.Os.Fixtures.{unassignable, idle}
use aer_core.Os.Windows.Jobs.{open_jobs, strays, handles, spawn-strays}

abbrev plain : SpawnOptions
plain = record { env = []; clear_env = false; cwd = none }

failed_spawn : spawn unassignable "cmd" [] plain idle ≡ (
  err (spawn_failed 87),
  record {
    state = 0;
    calls = closed 5 ∷ reaped 9 ∷ spawned 9 ∷ limited 5 ∷ created 5 ∷ [];
    refs = λ j. if 5 == j then 0 else if 5 == j then 1 else 0;
  },
)
unfolding spawn drop_job close_job reap_child
failed_spawn = refl

spawn-strays_example :
    let (r, w) = spawn unassignable "cmd" [] plain idle in
    (strays w.calls ≡ strays idle.calls) × (open_jobs w.calls ≡ open_jobs idle.calls + handles r)
spawn-strays_example = spawn-strays unassignable "cmd" [] plain idle
