-- ===== src/Run/Lifecycle.antt =====
-- The order of events of a run (src/task.rs, `run_impl`): which traces the callback can see, and how
-- the result of the run agrees with its trace. Lists of events and calls are newest first.
use aer_core.Base.{
  ℤ, negsuc, String, Bool, true, false, ◌≡◌, refl, subst, ◌⊎◌, inl, inr, Option, none, some, List,
  [], ◌∷◌, ok, err, arith, Bool-cases,
}
use aer_core.State.{State}
use aer_core.Error.{AerError}
use aer_core.Event.{Event, ExitReason, started, exited, stdout_chunk, stderr_chunk}
use aer_core.Task.{Task, CancelHandle}
use aer_core.Run.System.{
  Outcome, returned, panicked, Pc, Call, waited, spawned, tree_alive, kill_escalating,
  reap_abandoned, KillOnDropGuard, System, Answer, init,
}
use aer_core.Run.Runner.{
  run_from, runner_step, deliver, drop_guard, run_result, exit_reason, exit_code,
}
use aer_core.Run.Frame.{Grown, same, probed, killed, Frame, monitor_step-Frame, cancel_step-Frame}
use aer_core.Machine.{StateMachine, new}
use aer_core.Run.Schedule.{Turn, turn_step, Reach, here, next}

-- `Started` and then chunks, which need capture.
abbrev pub Live : Bool → List Event → Type 0
Live capture [] = ⊥
Live capture (started pid ∷ l) = l ≡ []
Live capture (exited code reason ∷ l) = ⊥
Live capture (stdout_chunk seq bytes ∷ l) = (capture ≡ true) × Live capture l
Live capture (stderr_chunk seq bytes ∷ l) = (capture ≡ true) × Live capture l

-- A complete trace, with its last event.
abbrev pub Complete : Bool → ℤ → ExitReason → List Event → Type 0
Complete capture code reason [] = ⊥
Complete capture code reason (e ∷ l) = (e ≡ exited code reason) × Live capture l

-- The traces that the specification allows at any moment of a run.
abbrev pub Lifecycle : Bool → List Event → Type 0
Lifecycle capture l =
    (l ≡ [])
    ⊎ Live capture l
    ⊎ ((code : ℤ) × (reason : ExitReason) × Complete capture code reason l)

-- `wait` has answered this exit code.
abbrev pub HasExited : {K : Type 0} → ℤ → List (Call K) → Type 0
HasExited code [] = ⊥
HasExited code (waited k os_code ∷ l) = (os_code ≡ code) ⊎ HasExited code l
HasExited code (spawned k ∷ l) = HasExited code l
HasExited code (tree_alive who k alive ∷ l) = HasExited code l
HasExited code (kill_escalating who k grace ∷ l) = HasExited code l
HasExited code (reap_abandoned k ∷ l) = HasExited code l

-- The traces that each outcome comes with.
abbrev pub Ends : {K E : Type 0} → Bool → Outcome E → List Event → List (Call K) → Type 0
Ends capture (returned (ok u)) l calls =
    (code : ℤ) × Complete capture code ExitReason.natural_exit l × HasExited code calls
Ends capture (returned (err AerError.timed_out)) l calls =
    Complete capture (negsuc 0) ExitReason.timed_out l
Ends capture (returned (err AerError.cancelled)) l calls =
    Complete capture (negsuc 0) ExitReason.cancel_requested l
Ends capture (returned (err (AerError.spawn_failed e))) l calls = l ≡ []
Ends capture (returned (err (AerError.wait_failed e))) l calls = Live capture l
Ends capture (returned (err (AerError.invalid_state_transition from to))) l calls = ⊥
Ends capture (returned (err (AerError.kill_failed e))) l calls = ⊥
Ends capture panicked l calls =
    Live capture l ⊎ ((code : ℤ) × (reason : ExitReason) × Complete capture code reason l)

abbrev Running : Bool → StateMachine → List Event → Type 0
Running capture m l = (m.state ≡ State.running) × Live capture l

module _ {K E : Type 0} (other : String → E) (t : Task) (with_cancel : Bool) where
  -- What holds at each place of `run_impl`.
  abbrev At : Pc K E → StateMachine → List Event → List (Call K) → Type 0
  At Pc.spawning m l calls = (m.state ≡ State.created) × (l ≡ [])
  At (Pc.entering h) m l calls = (m.state ≡ State.created) × (l ≡ [])
  At (Pc.announcing h) m l calls = (m.state ≡ State.running) × (l ≡ [])
  At (Pc.pumping h) m l calls = Running t.capture_output m l × (t.capture_output ≡ true)
  At (Pc.disarming h code) m l calls = Running t.capture_output m l × HasExited code calls
  At (Pc.clearing h code) m l calls = Running t.capture_output m l × HasExited code calls
  At (Pc.stopping code) m l calls = Running t.capture_output m l × HasExited code calls
  At (Pc.reading_timed_out code) m l calls = Running t.capture_output m l × HasExited code calls
  At (Pc.reading_fired code out) m l calls = Running t.capture_output m l × HasExited code calls
  At (Pc.exiting code out stopped) m l calls = Running t.capture_output m l × HasExited code calls
  At (Pc.reporting code out stopped) m l calls = Live t.capture_output l × HasExited code calls
  At (Pc.finishing out stopped) m l calls =
      (code : ℤ) × HasExited code calls
      × Complete t.capture_output (exit_code out stopped code) (exit_reason out stopped) l
  At (Pc.dropping k r) m l calls = Ends t.capture_output r l calls
  At (Pc.reaping k r) m l calls = Ends t.capture_output r l calls
  At (Pc.ended r) m l calls = Ends t.capture_output r l calls
  At _ m l calls = Running t.capture_output m l

  drop_guard-At :
      (g : Option (KillOnDropGuard K)) (r : Outcome E) (m : StateMachine) (l : List Event)
      (calls : List (Call K))
      → Ends t.capture_output r l calls
      → At (drop_guard g r) m l calls
  drop_guard-At none r m l calls h = h
  drop_guard-At (some g) r m l calls h = ground arith

  finish-Ends :
      (out stopped : Bool) (code : ℤ) (l : List Event) (calls : List (Call K))
      → HasExited code calls
      → Complete t.capture_output (exit_code out stopped code) (exit_reason out stopped) l
      → Ends {E = E} t.capture_output (returned (run_result out stopped)) l calls
  unfolding exit_code exit_reason run_result
  finish-Ends true stopped code l calls w c = c
  finish-Ends false true code l calls w c = c
  finish-Ends false false code l calls w c = (code, c, w)

  module _ (a : Answer K E) where
    run_from-At :
        (pc : Pc K E) (s : System K E)
        → s.runner ≡ pc
        → At pc s.machine s.events s.calls
        → let s' = run_from other t with_cancel a pc s in At s'.runner s'.machine s'.events s'.calls
    unfolding run_from
    run_from-At Pc.spawning s e h = ground arith
    run_from-At (Pc.reporting code out stopped) s e h = elim (Bool-cases a.panics) [
      | inl panics ↦
          rw (panics, deliver)
            (drop_guard-At s.guard panicked _ _ _
              (inr (exit_code out stopped code, exit_reason out stopped, (refl, h.0))))
      | inr returns ↦ rw (returns, deliver) (code, h.1, (refl, h.0))
    ]
    run_from-At (Pc.finishing out stopped) s e (code, w, c) =
        drop_guard-At s.guard (returned (run_result out stopped)) _ _ _
          (finish-Ends out stopped code s.events s.calls w c)
    run_from-At _ s e h = ground arith

  At-Grown :
      (pc : Pc K E) (m : StateMachine) (l : List Event) {before after : List (Call K)}
      → Grown before after
      → At pc m l before
      → At pc m l after
  At-Grown Pc.spawning m l g h = h
  At-Grown pc m l same h = h
  At-Grown pc m l (probed who k alive) h = ground arith
  At-Grown pc m l (killed who k grace foreign) h = ground arith

  -- What `At` says holds in every state that a schedule leads to.
  abbrev Inv : System K E → Type 0
  Inv s = At s.runner s.machine s.events s.calls

  Frame-Inv : {s s' : System K E} → Frame s s' → Inv s → Inv s'
  Frame-Inv {s} f h =
      rw (f.runner, f.machine, f.events) (At-Grown s.runner s.machine s.events f.calls h)

  turn_step-Inv :
      (turn : Turn) (a : Answer K E) (s : System K E)
      → Inv s
      → Inv (turn_step other t with_cancel turn a s)
  unfolding turn_step runner_step
  turn_step-Inv Turn.runner a s h = run_from-At a s.runner s refl h
  turn_step-Inv Turn.monitor a s h = Frame-Inv (monitor_step-Frame s a) h
  turn_step-Inv (Turn.canceller i) a s h = Frame-Inv (cancel_step-Frame s a i) h

  Reach-Inv : (h : CancelHandle K) {s : System K E} → Reach other t with_cancel (init E h) s → Inv s
  unfolding init new
  Reach-Inv h here = (refl, refl)
  Reach-Inv h (next {u} r turn a) = turn_step-Inv turn a u (Reach-Inv h r)

  Ends-Lifecycle :
      (r : Outcome E) (l : List Event) (calls : List (Call K))
      → Ends t.capture_output r l calls
      → Lifecycle t.capture_output l
  Ends-Lifecycle (returned (ok u)) l calls (code, c, w) = inr (inr (code, _, c))
  Ends-Lifecycle (returned (err AerError.timed_out)) l calls h = inr (inr (_, _, h))
  Ends-Lifecycle (returned (err AerError.cancelled)) l calls h = inr (inr (_, _, h))
  Ends-Lifecycle (returned (err (AerError.spawn_failed e))) l calls h = inl h
  Ends-Lifecycle (returned (err (AerError.wait_failed e))) l calls h = inr (inl h)
  Ends-Lifecycle (returned (err (AerError.invalid_state_transition from to))) l calls h = absurd h
  Ends-Lifecycle (returned (err (AerError.kill_failed e))) l calls h = absurd h
  Ends-Lifecycle panicked l calls h = inr h

  At-Lifecycle :
      (pc : Pc K E) (m : StateMachine) (l : List Event) (calls : List (Call K))
      → At pc m l calls
      → Lifecycle t.capture_output l
  At-Lifecycle (Pc.finishing out stopped) m l calls (code, w, c) = inr (inr (_, _, c))
  At-Lifecycle (Pc.dropping k r) m l calls h = Ends-Lifecycle r l calls h
  At-Lifecycle (Pc.reaping k r) m l calls h = Ends-Lifecycle r l calls h
  At-Lifecycle (Pc.ended r) m l calls h = Ends-Lifecycle r l calls h
  At-Lifecycle _ m l calls h = ground arith

  -- At every moment of a run, whatever the schedule and the environment's answers, the callback has
  -- seen a trace that the specification allows: nothing; or `Started` and then chunks; or
  -- these and then one `Exited`, which is last. Chunks occur only if capture is enabled.
  pub events-Lifecycle :
      (h : CancelHandle K) (s : System K E)
      → Reach other t with_cancel (init E h) s
      → Lifecycle t.capture_output s.events
  events-Lifecycle h s r = At-Lifecycle s.runner s.machine s.events s.calls (Reach-Inv h r)

  -- When a run has ended, its outcome agrees with its trace. `Ok` comes with a complete trace whose
  -- `Exited` has the reason `NaturalExit` and the code that `wait` gave; `TimedOut` and `Cancelled`
  -- with a complete trace whose `Exited` has that reason and the code -1; `SpawnFailed` with no
  -- event; `WaitFailed` with `Started` and chunks and no `Exited`; a panic with at least
  -- `Started`. `run_impl` never returns `InvalidStateTransition` or `KillFailed`.
  pub ended-Ends :
      (h : CancelHandle K) (s : System K E) (r : Outcome E)
      → Reach other t with_cancel (init E h) s
      → s.runner ≡ Pc.ended r
      → Ends t.capture_output r s.events s.calls
  ended-Ends h s r reach e = subst (λ pc. At pc s.machine s.events s.calls) e (Reach-Inv h reach)
