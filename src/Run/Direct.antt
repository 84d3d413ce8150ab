-- ===== src/Run/Direct.antt =====
-- `run_impl` of src/task.rs as one sequence of calls of the platform layer: a task without a timeout,
-- a callback that returns, and a cancel handle that nobody else uses meanwhile. Clones and drops of
-- the kill handle are calls of the platform.
mod Examples
pub mod Group
pub mod Handles
pub mod Job
mod Reuse
pub mod Simulation
pub mod Sweep
use aer_core.Base.{
  ℤ, Bool, true, false, ◌&&◌, not, Option, none, some, List, [], ◌∷◌, Result, ok, err,
  if◌then◌else◌,
}
use aer_core.Error.{AerError}
use aer_core.Event.{Event, started, exited}
use mathlib.Core.Option
use aer_core.Os.{OsHandle, ChunkMsg, SpawnOptions}
use aer_core.Os.Process.{OsProcess}
use aer_core.State.{State}
use aer_core.Machine.{StateMachine, new, transition}
use aer_core.Task.{Task, CancelHandle, kill_grace}
use aer_core.Run.System.{Caller, Call}
use aer_core.Run.Runner.{chunk_event, exit_code, exit_reason, run_result}

-- The handle as the run leaves it; the events and the calls, newest first; and the system.
pub record Session (W K : Type 0) : Type 0 where
  pub cancel : CancelHandle K
  pub events : List Event
  pub calls : List (Call K)
  pub world : W

-- `spawn_options`
unfoldable pub spawn_options : Task → SpawnOptions
spawn_options t = record { env = t.env; clear_env = t.clear_env; cwd = t.cwd }

-- What a run returns, beside what it leaves; `none` if a call of `kill_escalating` does not return.
abbrev pub Finished : (W K E : Type 0) → Type 0
Finished W K E = Option (Result (Unit {0}) (AerError E) × Session W K)

-- the loop that delivers the captured chunks
unfoldable pub pump : List ChunkMsg → List Event → List Event
unfolding chunk_event
pump [] events = events
pump (msg ∷ messages) events = pump messages (chunk_event msg ∷ events)

-- `messages` are what the drain threads send, in the order of its arrival (Run/Streams.antt).
module _ {W K C E : Type 0} (os : OsProcess W K C E) (t : Task) (with_cancel : Bool)
    (messages : List ChunkMsg) where
  -- the drop of what the slot of the cancel handle holds
  drop_slot : Option K → W → W
  drop_slot none w = w
  drop_slot (some kill) w = os.drop kill w

  -- the drop of the guard's handle, or of `handle`, where `run_impl` is left
  leave :
      K
      → Result (Unit {0}) (AerError E) × Session W K
      → Result (Unit {0}) (AerError E) × Session W K
  leave kill (result, s) = (result, record s { world = os.drop kill s.world })

  -- the kill for a cancel that came before the wiring
  early_kill : K → Session W K → Option (Result (Unit {0}) (AerError E) × W) → Option (Session W K)
  early_kill kill s none = none
  early_kill kill s (some (result, w)) = some (record s {
    cancel = record (s.cancel) { kill_fired = true };
    calls = Call.kill_escalating Caller.runner kill kill_grace ∷ s.calls;
    world = w;
  })

  early_probe : K → Session W K → Bool × W → Option (Session W K)
  unfolding early_kill
  early_probe kill s (alive, w) =
      let s' = record s { calls = Call.tree_alive Caller.runner kill alive ∷ s.calls; world = w } in
      elim alive [
        | true ↦ early_kill kill s' (os.kill_escalating kill kill_grace (os.clone kill w))
        | false ↦ some s'
      ]

  -- the wiring of the cancel handle
  wire : K → Session W K → Option (Session W K)
  unfolding early_probe drop_slot
  wire kill s =
      let wired = record s {
        cancel = record (s.cancel) { kill = some kill };
        world = drop_slot s.cancel.kill (os.clone kill s.world);
      } in
      if with_cancel
      then (if s.cancel.cancelled && not s.cancel.kill_fired
          then early_probe kill wired (os.tree_alive kill wired.world)
          else some wired)
      else some s

  -- the transition to `Exited`, and the end
  report :
      (was_cancelled : Bool)
      → ℤ
      → Session W K
      → StateMachine × Result (Unit {0}) (AerError E)
      → Result (Unit {0}) (AerError E) × Session W K
  unfolding exit_code exit_reason run_result
  report was_cancelled code s (machine, err e) = (err e, s)
  report was_cancelled code s (machine, ok u) = (
    run_result false was_cancelled,
    record s {
      events =
          exited (exit_code false was_cancelled code) (exit_reason false was_cancelled) ∷ s.events;
    },
  )

  -- the clearing of the cancel handle
  unwire : Session W K → Session W K
  unfolding drop_slot
  unwire s =
      if with_cancel
      then record s {
        cancel = record (s.cancel) { kill = none };
        world = drop_slot s.cancel.kill s.world;
      }
      else s

  -- from the exit code on
  finish : StateMachine → K → ℤ → Session W K → Result (Unit {0}) (AerError E) × Session W K
  unfolding report unwire leave transition
  finish machine kill code s = leave kill (
      report (with_cancel && s.cancel.kill_fired) code (unwire s) (transition machine State.exited))

  -- the drop of the armed guard
  abandon :
      K → AerError E → Session W K → Option (Result (Unit {0}) (AerError E) × W) → Finished W K E
  abandon kill e s none = none
  abandon kill e s (some (result, w)) = some (
    err e,
    record s {
      calls = Call.reap_abandoned kill ∷ Call.kill_escalating Caller.guard kill 0 ∷ s.calls;
      world = os.drop kill (os.reap_abandoned kill w);
    },
  )

  after_wait : StateMachine → K → Session W K → Result ℤ (AerError E) × W → Finished W K E
  unfolding finish abandon
  after_wait machine kill s (ok code, w) =
      some
        (finish machine kill code (record s { calls = Call.waited kill code ∷ s.calls; world = w }))
  after_wait machine kill s (err e, w) =
      abandon kill e (record s { world = w }) (os.kill_escalating kill 0 (os.clone kill w))

  -- the capture loop and the call of `wait`
  after_wiring : StateMachine → K → C → Option (Session W K) → Finished W K E
  unfolding after_wait pump
  after_wiring machine kill child none = none
  after_wiring machine kill child (some s) =
      after_wait machine kill
        (record s { events = pump (if t.capture_output then messages else []) s.events })
        (os.wait child kill s.world)

  -- from the transition to `Running` on
  announce :
      OsHandle K → C → Session W K → StateMachine × Result (Unit {0}) (AerError E) → Finished W K E
  unfolding wire after_wiring leave
  announce h child s (machine, err e) =
      Option.map (leave h.kill)
        (abandon h.kill e s (os.kill_escalating h.kill 0 (os.clone h.kill s.world)))
  announce h child s (machine, ok u) =
      after_wiring machine h.kill child
        (wire h.kill (record s { events = started h.pid ∷ s.events }))

  after_spawn : CancelHandle K → Result (OsHandle K × C) (AerError E) × W → Finished W K E
  unfolding announce new transition
  after_spawn ch (err e, w) =
      some (err e, record { cancel = ch; events = []; calls = []; world = w })
  after_spawn ch (ok (h, child), w) =
      announce h child
        (record {
          cancel = ch;
          events = [];
          calls = Call.spawned h.kill ∷ [];
          world = os.clone h.kill w;
        })
        (transition new State.running)

  unfoldable pub run_direct : CancelHandle K → W → Finished W K E
  unfolding spawn_options after_spawn
  run_direct ch w = after_spawn ch (os.spawn t.program t.args (spawn_options t) w)
