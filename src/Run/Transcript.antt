-- ===== src/Run/Transcript.antt =====
-- The whole sequence of events that the callback of a run has seen when the run returns (src/task.rs).
use mathlib.Core.List.{reverse, reverse-cons, map-append}
use aer_core.Base.{
  ℕ, ℤ, negsuc, String, Bool, ◌≡◌, refl, sym, subst, ap, ◌∙◌, List, [], ◌∷◌, ◌++◌, map, Result, ok,
  err,
}
use aer_core.Error.{AerError, spawn_failed, wait_failed, timed_out, cancelled}
use aer_core.Event.{Event, ExitReason, started, exited, stdout_chunk, stderr_chunk}
use aer_core.Os.{ChunkMsg}
use aer_core.Task.{Task, CancelHandle}
use aer_core.Run.System.{returned, Pc, Call, Answer, init}
use aer_core.Run.Runner.{chunk_event}
use aer_core.Run.Schedule.{Turn, execute, here, execute-Reach}
use aer_core.Run.Lifecycle.{Live, Complete, HasExited, Ends, ended-Ends}
use aer_core.Run.Delivery.{chunks_of, all_received, chunks_in_order}

-- `Started` and then one event for each of these messages, in order.
abbrev Delivered : List ChunkMsg → List Event → Type 0
Delivered received seen = (pid : ℕ) × (seen ≡ started pid ∷ map chunk_event received)

-- The same, and `Exited` at the end.
abbrev Finished : List ChunkMsg → ℤ → ExitReason → List Event → Type 0
Finished received code reason seen =
    (pid : ℕ) × (seen ≡ started pid ∷ (map chunk_event received ++ exited code reason ∷ []))

-- What the callback has seen, oldest first, by the result of the run.
abbrev pub Transcript :
    {K E : Type 0}
    → Result (Unit {0}) (AerError E)
    → (received : List ChunkMsg) (seen : List Event) → List (Call K)
    → Type 0
Transcript (ok u) received seen calls =
    (code : ℤ) × Finished received code ExitReason.natural_exit seen × HasExited code calls
Transcript (err timed_out) received seen calls =
    Finished received (negsuc 0) ExitReason.timed_out seen
Transcript (err cancelled) received seen calls =
    Finished received (negsuc 0) ExitReason.cancel_requested seen
Transcript (err (wait_failed e)) received seen calls = Delivered received seen
Transcript (err (spawn_failed e)) received seen calls = (seen ≡ []) × (received ≡ [])
Transcript (err (AerError.invalid_state_transition from to)) received seen calls = ⊥
Transcript (err (AerError.kill_failed e)) received seen calls = ⊥

add_chunk :
    (m : ChunkMsg) (ms : List ChunkMsg) (l : List Event)
    → Delivered (reverse ms) (reverse l)
    → Delivered (reverse (m ∷ ms)) (reverse (chunk_event m ∷ l))
add_chunk m ms l (pid, e) = (
  pid,
  reverse-cons (chunk_event m) l
      ∙ ap (λ (x : List Event). x ++ chunk_event m ∷ []) e
      ∙ ap (λ (x : List Event). started pid ∷ x)
          (sym (map-append chunk_event (reverse ms) (m ∷ [])))
      ∙ ap (λ (x : List ChunkMsg). started pid ∷ map chunk_event x) (sym (reverse-cons m ms)),
)

Live-Delivered :
    (capture : Bool) (l : List Event)
    → Live capture l
    → Delivered (reverse (chunks_of l)) (reverse l)
unfolding chunk_event
Live-Delivered capture [] h = absurd h
Live-Delivered capture (started pid ∷ l) h = (pid, rw h refl)
Live-Delivered capture (exited code reason ∷ l) h = absurd h
Live-Delivered capture (stdout_chunk seq bytes ∷ l) (on, h) =
    add_chunk (ChunkMsg.stdout seq bytes) (chunks_of l) l (Live-Delivered capture l h)
Live-Delivered capture (stderr_chunk seq bytes ∷ l) (on, h) =
    add_chunk (ChunkMsg.stderr seq bytes) (chunks_of l) l (Live-Delivered capture l h)

Complete-Finished :
    (capture : Bool) (code : ℤ) (reason : ExitReason) (l : List Event)
    → Complete capture code reason l
    → Finished (reverse (chunks_of l)) code reason (reverse l)
Complete-Finished capture code reason [] h = absurd h
Complete-Finished capture code reason (x ∷ l) (e, h) =
    let (pid, seen) = Live-Delivered capture l h in
    rw e (
      pid,
      reverse-cons (exited code reason) l
          ∙ ap (λ (y : List Event). y ++ exited code reason ∷ []) seen,
    )

Ends-Transcript :
    {K E : Type 0} (capture : Bool) (r : Result (Unit {0}) (AerError E)) (l : List Event)
    (calls : List (Call K))
    → Ends capture (returned r) l calls
    → Transcript r (reverse (chunks_of l)) (reverse l) calls
Ends-Transcript capture (ok u) l calls (code, complete, has_exited) =
    (code, Complete-Finished capture code ExitReason.natural_exit l complete, has_exited)
Ends-Transcript capture (err timed_out) l calls h =
    Complete-Finished capture (negsuc 0) ExitReason.timed_out l h
Ends-Transcript capture (err cancelled) l calls h =
    Complete-Finished capture (negsuc 0) ExitReason.cancel_requested l h
Ends-Transcript capture (err (wait_failed e)) l calls h = Live-Delivered capture l h
Ends-Transcript capture (err (spawn_failed e)) l calls h = rw h (refl, refl)
Ends-Transcript capture (err (AerError.invalid_state_transition from to)) l calls h = absurd h
Ends-Transcript capture (err (AerError.kill_failed e)) l calls h = absurd h

module _ {K E : Type 0} (other : String → E) (t : Task) (with_cancel : Bool) where
  -- When a run has returned, on any schedule, the callback has seen this and nothing else. After `Ok`,
  -- `TimedOut` and `Cancelled`: `Started`, every message that the capture loop received, each as a
  -- chunk of its stream, in order of arrival, and `Exited`, with the reason that fits the result and
  -- the code that `wait` gave, or -1 after `TimedOut` and `Cancelled`. After `WaitFailed`: the same
  -- without `Exited`. After `SpawnFailed`: nothing, and no message was received. There is no
  -- other result.
  pub ended-Transcript :
      (h : CancelHandle K) (schedule : List (Turn × Answer K E))
      (r : Result (Unit {0}) (AerError E))
      → let s = execute other t with_cancel schedule (init E h) in
        s.runner ≡ Pc.ended (returned r)
        → Transcript r
            (all_received other t with_cancel schedule (init E h))
            (reverse s.events)
            s.calls
  ended-Transcript h schedule r e =
      let s = execute other t with_cancel schedule (init E h) in
      subst (λ received. Transcript r received (reverse s.events) s.calls)
        (chunks_in_order other t with_cancel h schedule)
        (Ends-Transcript t.capture_output r s.events s.calls (
          ended-Ends other t with_cancel h s (returned r)
            (execute-Reach other t with_cancel schedule (init E h) (init E h) here) e))
