-- ===== src/Demo/Timeout.antt =====
-- What examples/timeout.rs prints, on any runs of its two tasks.
use Prim.Native.String.{◌++◌}
use aer_core.Base.{
  ℕ, ℤ, negsuc, String, Bool, true, false, ◌≡◌, ◌≢◌, refl, List, [], ◌∷◌, Result, ok, err,
}
use aer_core.Error.{AerError, spawn_failed, wait_failed, timed_out, cancelled}
use aer_core.Event.{Event}
use aer_core.Task.{Task, CancelHandle, new, with_timeout}
use aer_core.Run.System.{returned, Pc, Call, System, init}
use aer_core.Run.Schedule.{Reach}
use aer_core.Run.Lifecycle.{HasExited}
use aer_core.Run.TimingOut.{FoundAlive}
use aer_core.Demo.Programs.{
  sleep_task, hello_task, slow, fast, printed, line, slow_verdict, fast_verdict, timeout_main,
}
use aer_core.Demo.Silent.{Silent, started_line, ended-Silent, timed_out_alive, not_cancelled}

slow_silent : (windows : Bool) → (slow windows).capture_output ≡ false
unfolding slow sleep_task with_timeout new
slow_silent true = refl
slow_silent false = refl

fast_silent : (windows : Bool) → (fast windows).capture_output ≡ false
unfolding fast hello_task with_timeout new
fast_silent true = refl
fast_silent false = refl

module _ {E : Type 0} (show_nat : ℕ → String) (show_int : ℤ → String)
    (debug_result : Result (Unit {0}) (AerError E) → String) where
  abbrev exit_line : ℤ → String
  exit_line code = "  → Exited   (code " ++ (show_int code ++ ")")

  -- What one of the two runs adds to the output `out`, by its result: the lines of its events and a
  -- verdict. A time limit is reported only if the monitor has found the process alive after it.
  RunTranscript :
      {K : Type 0}
      → (Result (Unit {0}) (AerError E) → String)
      → List String
      → Result (Unit {0}) (AerError E)
      → List (Call K)
      → List String
      → Type 0
  RunTranscript verdict out (ok u) calls out' =
      (pid : ℕ) × (code : ℤ) × (out'
        ≡ verdict (ok tt) ∷ exit_line code ∷ started_line show_nat pid ∷ out)
      × HasExited code calls
  RunTranscript verdict out (err timed_out) calls out' =
      ((pid : ℕ) × (out'
          ≡ verdict (err timed_out) ∷ exit_line (negsuc 0) ∷ started_line show_nat pid ∷ out))
      × FoundAlive calls
  RunTranscript verdict out (err (wait_failed e)) calls out' =
      (pid : ℕ) × (out' ≡ verdict (err (wait_failed e)) ∷ started_line show_nat pid ∷ out)
  RunTranscript verdict out (err (spawn_failed e)) calls out' =
      out' ≡ verdict (err (spawn_failed e)) ∷ out
  RunTranscript verdict out (err e) calls out' = ⊥

  Silent-RunTranscript :
      {K : Type 0} (verdict : Result (Unit {0}) (AerError E) → String) (out : List String)
      (r : Result (Unit {0}) (AerError E)) (l : List Event) (calls : List (Call K))
      → r ≢ err cancelled
      → (r ≡ err timed_out → FoundAlive calls)
      → Silent r l calls
      → RunTranscript verdict out r calls
          (verdict r ∷ printed (line show_nat show_int debug_result) l out)
  unfolding RunTranscript printed line
  Silent-RunTranscript verdict out (ok u) l calls kept alive (pid, code, is_l, has_exited) =
      (pid, code, rw (is_l, printed, line) refl, has_exited)
  Silent-RunTranscript verdict out (err cancelled) l calls kept alive h = absurd (kept refl)
  Silent-RunTranscript verdict out (err timed_out) l calls kept alive (pid, is_l) =
      ((pid, rw (is_l, printed, line) refl), alive refl)
  Silent-RunTranscript verdict out (err (spawn_failed e)) l calls kept alive is_l =
      rw (is_l, printed) refl
  Silent-RunTranscript verdict out (err (wait_failed e)) l calls kept alive (pid, is_l) =
      (pid, rw (is_l, printed, line) refl)
  Silent-RunTranscript verdict out (err (AerError.invalid_state_transition from to)) l calls kept
        alive h =
      absurd h
  Silent-RunTranscript verdict out (err (AerError.kill_failed e)) l calls kept alive h = absurd h

  module _ {K : Type 0} (other : String → E) (h : CancelHandle K) (windows : Bool) where
    ended-RunTranscript :
        (verdict : Result (Unit {0}) (AerError E) → String) (out : List String) (t : Task)
        (s : System K E) (r : Result (Unit {0}) (AerError E))
        → t.capture_output ≡ false
        → Reach other t false (init E h) s
        → s.runner ≡ Pc.ended (returned r)
        → RunTranscript verdict out r s.calls
            (verdict r ∷ printed (line show_nat show_int debug_result) s.events out)
    ended-RunTranscript verdict out t s r silent reach e =
        Silent-RunTranscript verdict out r s.events s.calls (not_cancelled other t h s r reach e)
          (λ is_timed_out. (timed_out_alive other t false h s r reach e is_timed_out).1)
          (ended-Silent other t false h s r reach e silent)

    -- The example for time limits prints its two parts in order, each with the events of its own run and
    -- the verdict on its result.
    timeout_main-RunTranscript :
        (s u : System K E) (r q : Result (Unit {0}) (AerError E))
        → Reach other (slow windows) false (init E h) s
        → s.runner ≡ Pc.ended (returned r)
        → Reach other (fast windows) false (init E h) u
        → u.runner ≡ Pc.ended (returned q)
        → (first : List String) × RunTranscript
            (slow_verdict show_nat show_int debug_result)
            ("=== Process outlives timeout (2 s) ===\n" ∷ [])
            r
            s.calls
            first
          × RunTranscript
              (fast_verdict show_nat show_int debug_result)
              ("=== Process exits before timeout (30 s) ===\n" ∷ first)
              q
              u.calls
              (timeout_main show_nat show_int debug_result s.events r u.events q)
    unfolding timeout_main
    timeout_main-RunTranscript s u r q reach_s ended_s reach_u ended_u = (
      _,
      ended-RunTranscript _ _ (slow windows) s r (slow_silent windows) reach_s ended_s,
      ended-RunTranscript _ _ (fast windows) u q (fast_silent windows) reach_u ended_u,
    )
