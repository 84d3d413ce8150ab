-- ===== src/State.antt =====
-- src/machine.rs: the states of a task, their order of visit and their printed names.
use aer_core.Base.{String}

-- `enum State`
pub data State : Type 0 where
  created running exited : State

-- `impl Display for State`
unfoldable pub show_state : State → String
show_state State.created = "Created"
show_state State.running = "Running"
show_state State.exited = "Exited"

pub State-discrete : Discrete State
State-discrete = hlevel
