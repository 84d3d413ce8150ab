-- ===== src/Demo/Cancel.antt =====
-- What examples/cancel.rs prints, on any run of its task.
use Prim.Native.String.{◌++◌}
use aer_core.Base.{
  ℕ, ℤ, negsuc, String, Bool, true, false, ◌≡◌, ◌≢◌, refl, ap, ◌∙◌, List, [], ◌∷◌, Result, ok, err,
}
use aer_core.Error.{AerError, spawn_failed, wait_failed, timed_out, cancelled}
use aer_core.Event.{Event, debug_reason}
use aer_core.Task.{new, new_handle}
use aer_core.Run.System.{returned, Pc, Call, System, init}
use aer_core.Run.Schedule.{Reach}
use aer_core.Run.Lifecycle.{HasExited}
use aer_core.Run.Cancelling.{Shot}
use aer_core.Run.Cancelling.Killed.{ended-Shot}
use aer_core.Demo.Programs.{sleep_task, printed, cancel_line, cancel_main, cancel_verdict}
use aer_core.Demo.Silent.{Silent, Plain, started_line, ended-Silent, timed_out_alive}

sleep_task-Plain : (windows : Bool) → Plain (sleep_task windows)
unfolding sleep_task new
sleep_task-Plain true = (refl, refl)
sleep_task-Plain false = (refl, refl)

module _ {K E : Type 0} (other : String → E) (show_nat : ℕ → String) (show_int : ℤ → String)
    (debug_result : Result (Unit {0}) (AerError E) → String) where
  -- What examples/cancel.rs prints, newest first, by the result of its run.
  pub CancelTranscript : Result (Unit {0}) (AerError E) → List (Call K) → List String → Type 0
  CancelTranscript (err cancelled) calls out =
      ((pid : ℕ) × (out
          ≡ "\nrun_with_cancel returned Err(Cancelled) — as expected."
            ∷ ("  → Exited   (code " ++ (show_int (negsuc 0) ++ ", reason CancelRequested)"))
            ∷ started_line show_nat pid
            ∷ "Spawning long-running process (will be cancelled in ~1 s)...\n"
            ∷ []))
      × Shot calls
  CancelTranscript (ok u) calls out =
      (pid : ℕ) × (code : ℤ) × (out
        ≡ ("\nunexpected result: " ++ debug_result (ok u))
          ∷ ("  → Exited   (code " ++ (show_int code ++ ", reason NaturalExit)"))
          ∷ started_line show_nat pid
          ∷ "Spawning long-running process (will be cancelled in ~1 s)...\n"
          ∷ [])
      × HasExited code calls
  CancelTranscript (err (wait_failed e)) calls out =
      (pid : ℕ) × (out
        ≡ ("\nunexpected result: " ++ debug_result (err (wait_failed e)))
          ∷ started_line show_nat pid
          ∷ "Spawning long-running process (will be cancelled in ~1 s)...\n"
          ∷ [])
  CancelTranscript (err (spawn_failed e)) calls out =
      out
      ≡ ("\nunexpected result: " ++ debug_result (err (spawn_failed e)))
        ∷ "Spawning long-running process (will be cancelled in ~1 s)...\n"
        ∷ []
  CancelTranscript (err e) calls out = ⊥

  Silent-CancelTranscript :
      (r : Result (Unit {0}) (AerError E)) (l : List Event) (calls : List (Call K))
      → (r ≡ err cancelled → Shot calls)
      → r ≢ err timed_out
      → Silent r l calls
      → CancelTranscript r calls (cancel_main show_nat show_int debug_result l r)
  unfolding CancelTranscript cancel_main cancel_verdict cancel_line printed debug_reason
  Silent-CancelTranscript (ok u) l calls shot timely (pid, code, is_l, has_exited) =
      (pid, code, rw (is_l, printed, cancel_line) refl, has_exited)
  Silent-CancelTranscript (err cancelled) l calls shot timely (pid, is_l) =
      ((pid, rw (is_l, printed, cancel_line) refl), shot refl)
  Silent-CancelTranscript (err timed_out) l calls shot timely h = absurd (timely refl)
  Silent-CancelTranscript (err (spawn_failed e)) l calls shot timely is_l = rw (is_l, printed) refl
  Silent-CancelTranscript (err (wait_failed e)) l calls shot timely (pid, is_l) =
      (pid, rw (is_l, printed, cancel_line) refl)
  Silent-CancelTranscript (err (AerError.invalid_state_transition from to)) l calls shot timely h =
      absurd h
  Silent-CancelTranscript (err (AerError.kill_failed e)) l calls shot timely h = absurd h

  -- When `main` of the example for cancelling is through, whatever the schedule and the system did, the
  -- main thread has printed this. After `Cancelled`: the line of `Started`, that of an exit with the
  -- code -1 and the reason `CancelRequested`, and the verdict that this was expected; and the kill was made.
  -- After `Ok`: the line of `Started`, that of a natural exit with the code that `wait` gave, and the
  -- verdict that this was not expected. After `WaitFailed`: the line of `Started` and that verdict; and after `SpawnFailed`
  -- that verdict alone. There is no other result.
  pub cancel_main-CancelTranscript :
      (windows : Bool) (s : System K E) (r : Result (Unit {0}) (AerError E))
      → Reach other (sleep_task windows) true (init E (new_handle K)) s
      → s.runner ≡ Pc.ended (returned r)
      → CancelTranscript r s.calls (cancel_main show_nat show_int debug_result s.events r)
  unfolding new_handle
  cancel_main-CancelTranscript windows s r reach e =
      let t = sleep_task windows in
      let h = new_handle K in
      let (silent, unlimited) = sleep_task-Plain windows in
      Silent-CancelTranscript r s.events s.calls
        (λ is_cancelled.
          ended-Shot other t h refl s reach (e ∙ ap (λ r. Pc.ended (returned r)) is_cancelled))
        (λ is_timed_out. (timed_out_alive other t true h s r reach e is_timed_out).0 unlimited)
        (ended-Silent other t true h s r reach e silent)
