-- ===== src/Os/Examples.antt =====
-- The command that `spawn` builds and the drain threads of src/os/, at concrete inputs.
use aer_core.Base.{true, false, ◌≡◌, refl, some, List, [], ◌∷◌}
use aer_core.Os.{SpawnOptions, ChunkMsg}
use aer_core.Task.Env.{get_entry}
use aer_core.Os.Command.{Environment, expected}
use aer_core.Os.Drain.{ReadAnswer, drain, spawn_drain_thread}

abbrev isolated : SpawnOptions
isolated = record { env = ("LANG", "C") ∷ []; clear_env = true; cwd = some "/tmp" }

abbrev parent : Environment
parent j = some "inherited"

-- Without `clear_env` a variable that is not set is inherited.
inherited : expected (record isolated { clear_env = false }) parent "HOME" ≡ some "inherited"
unfolding get_entry
inherited = refl

-- Two reads and the end of the pipe; what a later call would give does not matter.
abbrev reads : List ReadAnswer
reads =
    ReadAnswer.bytes (104 ∷ [])
    ∷ ReadAnswer.bytes (105 ∷ 10 ∷ [])
    ∷ ReadAnswer.bytes []
    ∷ ReadAnswer.bytes (0 ∷ [])
    ∷ []

chunks :
    spawn_drain_thread (some tt) ChunkMsg.stdout reads
    ≡ ChunkMsg.stdout 0 (104 ∷ []) ∷ ChunkMsg.stdout 1 (105 ∷ 10 ∷ []) ∷ []
unfolding spawn_drain_thread drain
chunks = refl
