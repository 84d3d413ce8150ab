-- ===== src/Run/Schedule.antt =====
-- Runs as sequences of steps: a schedule says which thread moves next and what the environment
-- answers it.
use aer_core.Base.{ℕ, String, Bool, List, [], ◌∷◌}
use aer_core.Task.{Task}
use aer_core.Run.System.{System, Answer}
use aer_core.Run.Runner.{runner_step}
use aer_core.Run.Monitor.{monitor_step}
use aer_core.Run.Canceller.{cancel_step}

pub data Turn : Type 0 where
  runner monitor : Turn
  canceller : ℕ → Turn

module _ {K E : Type 0} (other : String → E) (t : Task) (with_cancel : Bool) where
  unfoldable pub turn_step : Turn → Answer K E → System K E → System K E
  turn_step Turn.runner a s = runner_step other t with_cancel a s
  turn_step Turn.monitor a s = monitor_step a s
  turn_step (Turn.canceller i) a s = cancel_step a i s

  unfoldable pub execute : List (Turn × Answer K E) → System K E → System K E
  execute [] s = s
  execute ((turn, a) ∷ schedule) s = execute schedule (turn_step turn a s)

  -- The states that some schedule leads to.
  pub data Reach (s : System K E) : System K E → Type 0 where
    here : Reach s s
    next :
        {u : System K E} → Reach s u → (turn : Turn) (a : Answer K E) → Reach s (turn_step turn a u)

  pub execute-Reach :
      (schedule : List (Turn × Answer K E)) (s u : System K E)
      → Reach s u
      → Reach s (execute schedule u)
  unfolding execute
  execute-Reach [] s u r = r
  execute-Reach ((turn, a) ∷ schedule) s u r =
      execute-Reach schedule s (turn_step turn a u) (next r turn a)

  pub Reach-trans : {s u v : System K E} → Reach s u → Reach u v → Reach s v
  Reach-trans r here = r
  Reach-trans r (next q turn a) = next (Reach-trans r q) turn a
