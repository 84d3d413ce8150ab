-- ===== src/Demo/Silent.antt =====
-- Runs of tasks that capture nothing, as most programs of examples/ make them: their events in full.
use Prim.Native.String.{◌++◌}
use aer_core.Base.{
  ℕ, ℤ, negsuc, String, Bool, false, ◌≡◌, ◌≢◌, refl, subst, ap, ◌∙◌, none, List, [], ◌∷◌, Result,
  ok, err,
}
use aer_core.Error.{AerError, spawn_failed, wait_failed, timed_out, cancelled}
use aer_core.Event.{Event, ExitReason, started, exited, stdout_chunk, stderr_chunk}
use aer_core.Task.{Task, CancelHandle}
use aer_core.Run.System.{returned, Pc, Call, System, init}
use aer_core.Run.Schedule.{Reach}
use aer_core.Run.Lifecycle.{Live, Complete, HasExited, Ends, ended-Ends}
use aer_core.Run.TimingOut.{FoundAlive, timed_out-FoundAlive}
use aer_core.Run.Cancelling.Without.{ended-Uncancelled}

-- The events of a run that has shown no chunk, newest first, and what the platform has done, by its result.
abbrev pub Silent :
    {K E : Type 0} → Result (Unit {0}) (AerError E) → List Event → List (Call K) → Type 0
Silent (ok u) l calls =
    (pid : ℕ) × (code : ℤ) × (l ≡ exited code ExitReason.natural_exit ∷ started pid ∷ [])
    × HasExited code calls
Silent (err timed_out) l calls =
    (pid : ℕ) × (l ≡ exited (negsuc 0) ExitReason.timed_out ∷ started pid ∷ [])
Silent (err cancelled) l calls =
    (pid : ℕ) × (l ≡ exited (negsuc 0) ExitReason.cancel_requested ∷ started pid ∷ [])
Silent (err (spawn_failed e)) l calls = l ≡ []
Silent (err (wait_failed e)) l calls = (pid : ℕ) × (l ≡ started pid ∷ [])
Silent (err e) l calls = ⊥

Live-silent : (l : List Event) → Live false l → (pid : ℕ) × (l ≡ started pid ∷ [])
Live-silent [] h = absurd h
Live-silent (started pid ∷ l) h = (pid, rw h refl)
Live-silent (exited code reason ∷ l) h = absurd h
Live-silent (stdout_chunk seq bytes ∷ l) h = cc
Live-silent (stderr_chunk seq bytes ∷ l) h = cc

Complete-silent :
    (code : ℤ) (reason : ExitReason) (l : List Event)
    → Complete false code reason l
    → (pid : ℕ) × (l ≡ exited code reason ∷ started pid ∷ [])
Complete-silent code reason [] h = absurd h
Complete-silent code reason (e ∷ l) (is_exit, h) =
    let (pid, rest) = Live-silent l h in (pid, rw (is_exit, rest) refl)

module _ {K E : Type 0} where
  Ends-Silent :
      (r : Result (Unit {0}) (AerError E)) (l : List Event) (calls : List (Call K))
      → Ends false (returned r) l calls
      → Silent r l calls
  Ends-Silent (ok u) l calls (code, h, has_exited) =
      let (pid, events) = Complete-silent code _ l h in (pid, code, events, has_exited)
  Ends-Silent (err timed_out) l calls h = Complete-silent _ _ l h
  Ends-Silent (err cancelled) l calls h = Complete-silent _ _ l h
  Ends-Silent (err (spawn_failed e)) l calls h = h
  Ends-Silent (err (wait_failed e)) l calls h = Live-silent l h
  Ends-Silent (err (AerError.invalid_state_transition from to)) l calls h = absurd h
  Ends-Silent (err (AerError.kill_failed e)) l calls h = absurd h

  module _ (other : String → E) (t : Task) (with_cancel : Bool) (h : CancelHandle K)
      (s : System K E) (r : Result (Unit {0}) (AerError E))
      (reach : Reach other t with_cancel (init E h) s) (e : s.runner ≡ Pc.ended (returned r)) where
    pub ended-Silent : t.capture_output ≡ false → Silent r s.events s.calls
    ended-Silent silent = Ends-Silent r s.events s.calls (
        subst (λ capture. Ends capture (returned r) s.events s.calls) silent
          (ended-Ends other t with_cancel h s (returned r) reach e))

    pub timed_out_alive : r ≡ err timed_out → (t.timeout ≢ none) × FoundAlive s.calls
    timed_out_alive is_timed_out =
        timed_out-FoundAlive other t with_cancel h s reach
          (e ∙ ap (λ r. Pc.ended (returned r)) is_timed_out)

module _ {K E : Type 0} (other : String → E) (t : Task) (h : CancelHandle K) where
  pub not_cancelled :
      (s : System K E) (r : Result (Unit {0}) (AerError E))
      → Reach other t false (init E h) s
      → s.runner ≡ Pc.ended (returned r)
      → r ≢ err cancelled
  not_cancelled s r reach e is_cancelled =
      ended-Uncancelled other t h s (returned (err cancelled)) reach
        (e ∙ ap (λ r. Pc.ended (returned r)) is_cancelled)

abbrev pub started_line : (ℕ → String) → ℕ → String
started_line show_nat pid = "  → Started  (pid " ++ (show_nat pid ++ ")")

-- Nothing is captured and there is no time limit.
abbrev pub Plain : Task → Type 0
Plain t = (t.capture_output ≡ false) × (t.timeout ≡ none)
