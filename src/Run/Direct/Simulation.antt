-- ===== src/Run/Direct/Simulation.antt =====
-- The sequential run of src/task.rs is one of the runs of the step machine, on any platform.
use aer_core.Base.{
  if◌then◌else◌, List, ℕ, ℤ, String, Bool, true, false, ◌≡◌, ◌≢◌, refl, Option, none, some, [], ◌∷◌,
  ap, sym, Result, ok, err,
}
use aer_core.Error.{AerError, spawn_failed, wait_failed}
use aer_core.Event.{started}
use aer_core.Os.{OsHandle, ChunkMsg}
use aer_core.Os.Process.{OsProcess, OsProcessLaws, FailsWith}
use aer_core.Task.{Task, CancelHandle, kill_grace}
use aer_core.State.{State}
use aer_core.Machine.{StateMachine, new, transition}
use aer_core.Run.System.{returned, Pc, MonitorPc, CancelPc, Caller, Call, System, Answer, init}
use aer_core.Run.Runner.{runner_step, chunk_event}
use aer_core.Run.Schedule.{Turn, turn_step, execute}
use aer_core.Run.Completion.{repeat}
use aer_core.Run.Direct.{
  Session, Finished, spawn_options, early_kill, early_probe, wire, finish, report, unwire, leave,
  drop_slot, announce, abandon, after_wait, after_wiring, after_spawn, pump, run_direct,
}

abbrev pub simple : (capture : Bool) → Task → Task
simple capture t = record t { timeout = none; capture_output = capture }

abbrev pub running : StateMachine
running = record { state = State.running }

-- The step machine has ended like this, with the same events, platform calls and cancel handle.
abbrev pub Simulates :
    {W K E : Type 0} → System K E → Result (Unit {0}) (AerError E) × Session W K → Type 0
Simulates s (result, session) =
    (s.runner ≡ Pc.ended (returned result))
    × (s.events ≡ session.events)
    × (s.calls ≡ session.calls)
    × (s.cancel ≡ session.cancel)

module _ {W K C E : Type 0} (os : OsProcess W K C E) (laws : OsProcessLaws os) (other : String → E)
    (t : Task) (messages : List ChunkMsg) where
  -- The step machine under a schedule.
  abbrev pub alone :
      (capture with_cancel : Bool) → List (Turn × Answer K E) → System K E → System K E
  alone capture with_cancel = execute other (simple capture t) with_cancel

  abbrev answers : (alive : Bool) → Result (OsHandle K) E → Result ℤ E → Answer K E
  answers alive spawn wait = record {
    panics = false;
    alive = alive;
    spawn = spawn;
    message = none;
    wait = some wait;
  }

  -- Turns at which these messages arrive.
  abbrev pumped : Answer K E → List ChunkMsg → List (Turn × Answer K E) → List (Turn × Answer K E)
  pumped a [] rest = rest
  pumped a (m ∷ ms) rest = (Turn.runner, record a { message = some m }) ∷ pumped a ms rest

  -- The step machine behind the wiring.
  abbrev watching : OsHandle K → Session W K → System K E
  watching h s = record {
    cancel = s.cancel;
    owner = none;
    timed_out = false;
    stopped = false;
    chunk_tx = false;
    machine = running;
    guard = some (record { kill = h.kill; armed = true });
    runner = Pc.watching h;
    monitor = MonitorPc.unborn;
    cancellers = λ _. CancelPc.uncalled;
    events = s.events;
    calls = s.calls;
  }

  -- The step machine when the messages are delivered.
  abbrev collected : (capture : Bool) → OsHandle K → Session W K → System K E
  collected capture h s = record (watching h s) {
    runner = if capture then Pc.pumping h else Pc.waiting h;
  }

  abbrev delivering : (capture : Bool) → Session W K → Session W K
  delivering capture s = record s { events = pump (if capture then messages else []) s.events }

  -- The platform's run returns, and the step machine can do the same from `s`.
  abbrev pub Follows : (capture with_cancel : Bool) → System K E → Finished W K E → Type 0
  Follows capture with_cancel s x =
      (r : Result (Unit {0}) (AerError E) × Session W K) × (x ≡ some r)
      × ((schedule : List (Turn × Answer K E)) × Simulates (alone capture with_cancel schedule s) r)

  -- The same from the delivery of the messages on, whatever the answers before it were.
  abbrev Ends :
      (capture with_cancel alive : Bool) → OsHandle K → Session W K → Finished W K E → Type 0
  Ends capture with_cancel alive h s x =
      (r : Result (Unit {0}) (AerError E) × Session W K) × (x ≡ some r)
      × ((wait : Result ℤ E) × Simulates
            (alone capture with_cancel (repeat 11 (Turn.runner, answers alive (ok h) wait) [])
              (collected capture h s))
            r)

  abandon-Ends :
      (capture with_cancel alive : Bool) (h : OsHandle K) (s : Session W K) (io : E) (w : W)
      (x : Option (Result (Unit {0}) (AerError E) × W))
      → x ≢ none
      → Ends capture with_cancel alive h s (
          abandon os
            (simple capture t)
            with_cancel
            messages
            h.kill
            (wait_failed io)
            (record s { world = w })
            x)
  unfolding abandon execute turn_step runner_step
  abandon-Ends capture with_cancel alive h s io w none returns = absurd (returns refl)
  abandon-Ends true with_cancel alive h s io w (some (result, w')) returns =
      (_, refl, (err io, (refl, refl, refl, refl)))
  abandon-Ends false with_cancel alive h s io w (some (result, w')) returns =
      (_, refl, (err io, (refl, refl, refl, refl)))

  after_wait-Ends :
      (capture with_cancel alive : Bool) (h : OsHandle K) (s : Session W K)
      (x : Result ℤ (AerError E) × W)
      → FailsWith wait_failed x.0
      → Ends capture with_cancel alive h s
          (after_wait os (simple capture t) with_cancel messages running h.kill s x)
  unfolding after_wait finish report unwire leave transition execute turn_step runner_step
  after_wait-Ends true true alive h s (ok code, w) fails =
      (_, refl, (ok code, (refl, refl, refl, refl)))
  after_wait-Ends true false alive h s (ok code, w) fails =
      (_, refl, (ok code, (refl, refl, refl, refl)))
  after_wait-Ends false true alive h s (ok code, w) fails =
      (_, refl, (ok code, (refl, refl, refl, refl)))
  after_wait-Ends false false alive h s (ok code, w) fails =
      (_, refl, (ok code, (refl, refl, refl, refl)))
  after_wait-Ends capture with_cancel alive h s (err e, w) (io, p) = rw p (
      abandon-Ends capture with_cancel alive h s io w
        (os.kill_escalating h.kill 0 (os.clone h.kill w))
        (laws.kill_escalating_returns h.kill 0 (os.clone h.kill w)))

  pumping-loop :
      (with_cancel : Bool) (a : Answer K E) (h : OsHandle K) (s : Session W K) (ms : List ChunkMsg)
      (rest : List (Turn × Answer K E))
      → a.panics ≡ false
      → alone true with_cancel (pumped a ms rest) (collected true h s)
        ≡ alone true with_cancel rest (collected true h (record s { events = pump ms s.events }))
  unfolding pump execute turn_step runner_step
  pumping-loop with_cancel a h s [] rest calm = refl
  pumping-loop with_cancel a h s (m ∷ ms) rest calm =
      rw calm
        (pumping-loop with_cancel a h (record s { events = chunk_event m ∷ s.events }) ms rest calm)

  -- Two turns and the messages lead from the wiring to the call of `wait`.
  delivering-lem :
      (capture with_cancel alive : Bool) (h : OsHandle K) (wait : Result ℤ E) (s : Session W K)
      (rest : List (Turn × Answer K E))
      → let a = answers alive (ok h) wait in
        alone capture with_cancel
          (repeat 2 (Turn.runner, a) (pumped a (if capture then messages else []) rest))
          (watching h s)
        ≡ alone capture with_cancel rest (collected capture h (delivering capture s))
  unfolding pump execute turn_step runner_step
  delivering-lem false with_cancel alive h wait s rest = refl
  delivering-lem true with_cancel alive h wait s rest =
      pumping-loop with_cancel (answers alive (ok h) wait) h s messages rest refl

  -- `n` turns take the step machine from the call of `run_impl` behind the wiring.
  Follows-from :
      (capture with_cancel alive : Bool) (h : OsHandle K) (child : C) (ch : CancelHandle K)
      (s : Session W K) (n : ℕ)
      → ((wait : Result ℤ E) (rest : List (Turn × Answer K E))
          → alone capture with_cancel
              (repeat n (Turn.runner, answers alive (ok h) wait) rest)
              (init E ch)
            ≡ alone capture with_cancel rest (watching h s))
      → Follows capture with_cancel
          (init E ch)
          (after_wiring os (simple capture t) with_cancel messages running h.kill child (some s))
  unfolding after_wiring
  Follows-from capture with_cancel alive h child ch s n reaches =
      let (r, returns, (wait, same)) =
        after_wait-Ends capture with_cancel alive h (delivering capture s)
          (os.wait child h.kill s.world) (laws.wait-FailsWith child h.kill s.world) in
      let turn : Turn × Answer K E = (Turn.runner, answers alive (ok h) wait) in
      (
        r,
        returns,
        (
          repeat n turn (
              repeat 2 turn (pumped turn.1 (if capture then messages else []) (repeat 11 turn []))),
          rw (reaches wait _, delivering-lem capture with_cancel alive h wait s _) same,
        ),
      )

  abbrev opened : OsHandle K → CancelHandle K → W → Session W K
  opened h ch w = record {
    cancel = ch;
    events = started h.pid ∷ [];
    calls = Call.spawned h.kill ∷ [];
    world = w;
  }

  -- A handle on which `cancel` was called before the run.
  abbrev requested : Option K → Bool → CancelHandle K
  requested kill poisoned = record {
    cancelled = true;
    kill_fired = false;
    kill = kill;
    poisoned = poisoned;
  }

  early_kill-Follows :
      (capture : Bool) (h : OsHandle K) (child : C) (kill : Option K) (poisoned : Bool) (w w' : W)
      (x : Option (Result (Unit {0}) (AerError E) × W))
      → x ≢ none
      → Follows capture true (init E (requested kill poisoned)) (
          after_wiring os (simple capture t) true messages running h.kill child (
            early_kill os
              (simple capture t)
              true
              messages
              h.kill
              (record (opened h (requested (some h.kill) poisoned) w) {
                calls = Call.tree_alive Caller.runner h.kill true ∷ Call.spawned h.kill ∷ [];
                world = w';
              })
              x))
  unfolding early_kill execute turn_step runner_step init
  early_kill-Follows capture h child kill poisoned w w' none returns = absurd (returns refl)
  early_kill-Follows capture h child kill poisoned w w' (some (result, u)) returns =
      Follows-from capture true true h child (requested kill poisoned) _ 9 (λ wait rest. refl)

  early_probe-Follows :
      (capture : Bool) (h : OsHandle K) (child : C) (kill : Option K) (poisoned : Bool) (w : W)
      (x : Bool × W)
      → Follows capture true (init E (requested kill poisoned)) (
          after_wiring os (simple capture t) true messages running h.kill child (
            early_probe os
              (simple capture t)
              true
              messages
              h.kill
              (opened h (requested (some h.kill) poisoned) w)
              x))
  unfolding early_probe execute turn_step runner_step init
  early_probe-Follows capture h child kill poisoned w (true, w') =
      early_kill-Follows capture h child kill poisoned w w'
        (os.kill_escalating h.kill kill_grace (os.clone h.kill w'))
        (laws.kill_escalating_returns h.kill kill_grace (os.clone h.kill w'))
  early_probe-Follows capture h child kill poisoned w (false, w') =
      Follows-from capture true false h child (requested kill poisoned) _ 7 (λ wait rest. refl)

  wire-Follows :
      (capture with_cancel cancelled kill_fired : Bool) (h : OsHandle K) (child : C)
      (kill : Option K) (poisoned : Bool) (w : W)
      → let ch : CancelHandle K = record {
        cancelled = cancelled;
        kill_fired = kill_fired;
        kill = kill;
        poisoned = poisoned;
      } in
        Follows capture with_cancel (init E ch) (
          after_wiring os
            (simple capture t)
            with_cancel
            messages
            running
            h.kill
            child
            (wire os (simple capture t) with_cancel messages h.kill (opened h ch w)))
  unfolding wire execute turn_step runner_step init
  wire-Follows capture false cancelled fired h child kill poisoned w =
      Follows-from capture false true h child _ _ 4 (λ wait rest. refl)
  wire-Follows capture true false fired h child kill poisoned w =
      Follows-from capture true true h child _ _ 5 (λ wait rest. refl)
  wire-Follows capture true true true h child kill poisoned w =
      Follows-from capture true true h child _ _ 6 (λ wait rest. refl)
  wire-Follows capture true true false h child kill poisoned w =
      let wired = drop_slot os (simple capture t) true messages kill (os.clone h.kill w) in
      early_probe-Follows capture h child kill poisoned wired (os.tree_alive h.kill wired)

  after_spawn-Follows :
      (capture with_cancel : Bool) (ch : CancelHandle K)
      (x : Result (OsHandle K × C) (AerError E) × W)
      → FailsWith spawn_failed x.0
      → Follows capture with_cancel
          (init E ch)
          (after_spawn os (simple capture t) with_cancel messages ch x)
  unfolding after_spawn announce leave new transition execute turn_step runner_step init
  after_spawn-Follows capture with_cancel ch (ok (h, child), w) fails =
      wire-Follows capture with_cancel ch.cancelled ch.kill_fired h child ch.kill ch.poisoned
        (os.clone h.kill w)
  after_spawn-Follows capture with_cancel ch (err e, w) (io, p) = (
    _,
    refl,
    (
      repeat 1 (Turn.runner, answers true (err io) (err io)) [],
      (ap gone (sym p), refl, refl, refl),
    ),
  )
    where
      gone : AerError E → Pc K E
      gone e = Pc.ended (returned (err e))

  -- On a platform that keeps its promises, the sequence of platform calls that `run_impl` makes for
  -- a task without a timeout, if the callback returns and nobody else uses the
  -- cancel handle meanwhile, comes to its end, and is one of the runs of the step machine: the same
  -- result, events, platform calls and cancel handle, whatever the handle held before.
  pub run_direct-Follows :
      (capture with_cancel : Bool) (ch : CancelHandle K) (w : W)
      → Follows capture with_cancel
          (init E ch)
          (run_direct os (simple capture t) with_cancel messages ch w)
  unfolding run_direct
  run_direct-Follows capture with_cancel ch w =
      after_spawn-Follows capture with_cancel ch
        (os.spawn t.program t.args (spawn_options (simple capture t)) w)
        (laws.spawn-FailsWith t.program t.args (spawn_options (simple capture t)) w)
