-- ===== src/Run/Completion.antt =====
-- A run that nothing disturbs completes, and delivers what the process wrote (src/task.rs).
use mathlib.Core.List.{reverse, reverse-cons, append-nil, append_assoc}
use aer_core.Base.{
  ℕ, ℤ, String, Bool, true, false, ◌≡◌, refl, sym, ap, ◌∙◌, Option, none, some, List, [], ◌∷◌, ◌++◌,
  map, ok,
}
use aer_core.State.{State}
use aer_core.Event.{Event, ExitReason, started, exited}
use aer_core.Os.{OsHandle, ChunkMsg}
use aer_core.Task.{Task, CancelHandle, with_capture_output}
use aer_core.Run.System.{returned, Pc, MonitorPc, CancelPc, spawned, System, Answer, init}
use aer_core.Run.Runner.{runner_step, chunk_event}
use aer_core.Run.Schedule.{Turn, turn_step, execute}

-- The events of the chunks, newest first, before the older ones.
abbrev pub delivered : List ChunkMsg → List Event → List Event
delivered [] l = l
delivered (m ∷ ms) l = delivered ms (chunk_event m ∷ l)

abbrev monitor_of : {K : Type 0} → OsHandle K → Option ℕ → MonitorPc K
monitor_of h none = MonitorPc.unborn
monitor_of h (some d) = MonitorPc.sleeping h.kill

-- A cancel handle on which `cancel` has not been called.
abbrev pub unused : {K : Type 0} → Option K → Bool → CancelHandle K
unused kill poisoned = record {
  cancelled = false;
  kill_fired = false;
  kill = kill;
  poisoned = poisoned;
}

reverse-delivered :
    (ms : List ChunkMsg) (l : List Event)
    → reverse (delivered ms l) ≡ reverse l ++ map chunk_event ms
reverse-delivered [] l = sym (append-nil (reverse l))
reverse-delivered (m ∷ ms) l =
    reverse-delivered ms (chunk_event m ∷ l)
    ∙ rw (reverse-cons (chunk_event m) l)
        (append_assoc (reverse l) (chunk_event m ∷ []) (map chunk_event ms))

-- The steps to the capture loop: with a cancel handle there is one more, the test for a cancel.
abbrev pub openings : (with_cancel : Bool) → ℕ
openings true = 7
openings false = 6

-- The wired handle; without a handle to cancel by there is nothing to wire.
abbrev wired : {K : Type 0} → (with_cancel : Bool) → K → CancelHandle K → CancelHandle K
wired true k c = record c { kill = some k }
wired false k c = c

module _ {K E : Type 0} where
  -- The environment of an undisturbed run: the callback returns, and `wait` answers `code`.
  abbrev pub calm : OsHandle K → ℤ → Option ChunkMsg → Turn × Answer K E
  calm h code m = (
    Turn.runner,
    record { panics = false; alive = false; spawn = ok h; message = m; wait = some (ok code) },
  )

  abbrev pub repeat : ℕ → Turn × Answer K E → List (Turn × Answer K E) → List (Turn × Answer K E)
  repeat ℕ.zero x l = l
  repeat (ℕ.suc n) x l = x ∷ repeat n x l

  abbrev pumped :
      OsHandle K → ℤ → List ChunkMsg → List (Turn × Answer K E) → List (Turn × Answer K E)
  pumped h code [] l = l
  pumped h code (m ∷ ms) l = calm h code (some m) ∷ pumped h code ms l

  -- The steps to the capture loop, one for each chunk, and ten to the end.
  abbrev pub undisturbed :
      (with_cancel : Bool) → OsHandle K → ℤ → List ChunkMsg → List (Turn × Answer K E)
  undisturbed with_cancel h code ms =
      repeat (openings with_cancel) (calm h code none)
        (pumped h code ms (repeat 10 (calm h code none) []))

  -- The state at the capture loop.
  abbrev looping :
      (with_cancel : Bool) → CancelHandle K → OsHandle K → MonitorPc K → List Event → System K E
  looping with_cancel c h monitor l = record {
    cancel = wired with_cancel h.kill c;
    owner = none;
    timed_out = false;
    stopped = false;
    chunk_tx = false;
    machine = record { state = State.running };
    guard = some (record { kill = h.kill; armed = true });
    runner = Pc.pumping h;
    monitor = monitor;
    cancellers = λ _. CancelPc.uncalled;
    events = l;
    calls = spawned h.kill ∷ [];
  }

module _ {K E : Type 0} (other : String → E) (t : Task) (h : OsHandle K) (code : ℤ) where
  module _ (kill : Option K) (poisoned : Bool) where
    opening :
        (with_cancel : Bool) (timeout : Option ℕ) (rest : List (Turn × Answer K E))
        → let t' = record t { timeout = timeout; capture_output = true } in
          execute other t' with_cancel
            (repeat (openings with_cancel) (calm h code none) rest)
            (init E (unused kill poisoned))
          ≡ execute other t' with_cancel rest (
              looping with_cancel
                (unused kill poisoned)
                h
                (monitor_of h timeout)
                (started h.pid ∷ []))
    unfolding execute turn_step runner_step init
    opening true none rest = refl
    opening true (some d) rest = refl
    opening false none rest = refl
    opening false (some d) rest = refl

    loop :
        (with_cancel : Bool) (timeout : Option ℕ) (ms : List ChunkMsg)
        (rest : List (Turn × Answer K E)) (monitor : MonitorPc K) (l : List Event)
        → execute other
            (record t { timeout = timeout; capture_output = true })
            with_cancel
            (pumped h code ms rest)
            (looping with_cancel (unused kill poisoned) h monitor l)
          ≡ execute other
              (record t { timeout = timeout; capture_output = true })
              with_cancel
              rest
              (looping with_cancel (unused kill poisoned) h monitor (delivered ms l))
    unfolding execute turn_step runner_step
    loop with_cancel timeout [] rest monitor l = refl
    loop with_cancel timeout (m ∷ ms) rest monitor l =
        loop with_cancel timeout ms rest monitor (chunk_event m ∷ l)

    closing :
        (with_cancel : Bool) (timeout : Option ℕ) (monitor : MonitorPc K) (l : List Event)
        → let s =
            execute other
              (record t { timeout = timeout; capture_output = true })
              with_cancel
              (repeat 10 (calm h code none) [])
              (looping with_cancel (unused kill poisoned) h monitor l) in
          (s.runner ≡ Pc.ended (returned (ok tt)))
          × (s.events ≡ exited code ExitReason.natural_exit ∷ l)
    unfolding execute turn_step runner_step
    closing true timeout monitor l = (refl, refl)
    closing false timeout monitor l = (refl, refl)

  -- With capture enabled, and with a cancel handle or without: when the runner alone has turns, so that
  -- nobody cancels and no deadline passes, the callback does not panic, and the process writes the
  -- chunks `ms` and exits with `code`, the run completes. After seven steps, or six without a
  -- handle, one for each chunk, and ten more it has returned `Ok`, and the callback has seen
  -- `Started`, every chunk in the order of arrival, and `Exited` with that code and the reason
  -- `NaturalExit`.
  pub run_completes :
      (with_cancel : Bool) (kill : Option K) (poisoned : Bool) (ms : List ChunkMsg)
      → let s =
          execute other
            (with_capture_output t true)
            with_cancel
            (undisturbed with_cancel h code ms)
            (init E (unused kill poisoned)) in
        (s.runner ≡ Pc.ended (returned (ok tt)))
        × (reverse s.events
            ≡ started h.pid ∷ (map chunk_event ms ++ exited code ExitReason.natural_exit ∷ []))
  unfolding with_capture_output
  run_completes with_cancel kill poisoned ms =
      let (runner, events) =
        closing kill poisoned with_cancel t.timeout (monitor_of h t.timeout)
          (delivered ms (started h.pid ∷ [])) in
      rw
        (
          opening kill poisoned with_cancel t.timeout
              (pumped h code ms (repeat 10 (calm h code none) [])),
          loop kill poisoned with_cancel t.timeout ms (repeat 10 (calm h code none) [])
              (monitor_of h t.timeout) (started h.pid ∷ []),
        )
        (
          runner,
          ap reverse events
              ∙ reverse-cons _ (delivered ms (started h.pid ∷ []))
              ∙ ap (λ (l : List Event). l ++ exited code ExitReason.natural_exit ∷ [])
                  (reverse-delivered ms (started h.pid ∷ [])),
        )
