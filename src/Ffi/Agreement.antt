-- ===== src/Ffi/Agreement.antt =====
-- The return code of `aer_task_run` of src/ffi.rs and the events that its callback has seen.
use aer_core.Base.{ℕ, negsuc, String, Bool, false, ◌≡◌, ◌≢◌, Option, some, List, [], ◌∷◌, ok, arith}
use aer_core.Event.{Event, exited, reason_code}
use aer_core.Task.{Task, CancelHandle}
use aer_core.Run.System.{Outcome, returned, Pc, Call, System, init}
use aer_core.Run.Schedule.{Reach}
use aer_core.Run.Lifecycle.{Ends, ended-Ends}
use aer_core.Ffi.Codes.{AerErrorCode, error_code, map_aer_error}
use aer_core.Ffi.Events.{AerEvent, c_event}
use aer_core.Ffi.Run.{finish_run, aer_task_run}

-- An `Exited` event with this reason.
abbrev pub IsExit : ℕ → AerEvent → Type 0
IsExit reason e = (e.kind ≡ 1) × (e.reason ≡ reason)

-- What a return code says of the events, newest first.
abbrev pub Agrees : AerErrorCode → List Event → Type 0
Agrees AerErrorCode.ok [] = ⊥
Agrees AerErrorCode.ok (e ∷ l) = IsExit 0 (c_event e)
Agrees AerErrorCode.timed_out [] = ⊥
Agrees AerErrorCode.timed_out (e ∷ l) = IsExit 1 (c_event e) × ((c_event e).code ≡ negsuc 0)
Agrees AerErrorCode.cancelled [] = ⊥
Agrees AerErrorCode.cancelled (e ∷ l) = IsExit 2 (c_event e) × ((c_event e).code ≡ negsuc 0)
Agrees AerErrorCode.spawn_failed l = l ≡ []
Agrees AerErrorCode.wait_failed [] = ⊥
Agrees AerErrorCode.wait_failed (e ∷ l) = (c_event e).kind ≢ 1
Agrees AerErrorCode.panic l = Unit
Agrees _ l = ⊥

module _ {C E : Type 0} (cstring : String → Option C) (show_io : E → String)
    (payload : Option String) where
  finish_run-Agrees :
      {K : Type 0} (capture : Bool) (r : Outcome E) (l : List Event) (calls : List (Call K))
      → Ends capture r l calls
      → Agrees (finish_run cstring show_io payload r).0 l
  unfolding finish_run map_aer_error error_code c_event reason_code
  finish_run-Agrees capture (returned (ok u)) (exited code reason ∷ l) calls h = ground arith
  finish_run-Agrees capture r l calls h = ground arith

  -- The code that `aer_task_run` returns for a run agrees with the events that its callback has seen:
  -- `Ok`, `TimedOut` and `Cancelled` come with a last event that is an exit with the reason 0, 1
  -- or 2, and -1 for its code in the last two; `SpawnFailed` with no event; `WaitFailed` with a
  -- last event that is not an exit. The only other code is `Panic`. The task has not run before.
  pub task_run-Agrees :
      {H K : Type 0} (other : String → E) (with_cancel : Bool) (h : CancelHandle K) (s : System K E)
      (r : Outcome E) (inner : Task) (cancel : Option H) (msg : Option C)
      → Reach other inner with_cancel (init E h) s
      → s.runner ≡ Pc.ended r
      → Agrees
          (aer_task_run cstring show_io payload
            (λ _ _. r)
            (some (record { inner = some inner; has_run = false; cancel = cancel }))
            msg).0
          s.events
  unfolding aer_task_run
  task_run-Agrees other with_cancel h s r inner cancel msg reach e =
      finish_run-Agrees inner.capture_output r s.events s.calls
        (ended-Ends other inner with_cancel h s r reach e)
