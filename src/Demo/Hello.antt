-- ===== src/Demo/Hello.antt =====
-- What examples/hello.rs and examples/tree.rs print and return, on any run of their tasks.
use Prim.Native.String.{◌++◌}
use aer_core.Base.{
  ℕ, ℤ, String, Bool, true, false, ◌≡◌, ◌≢◌, refl, Option, some, List, [], ◌∷◌, Result, ok, err,
}
use aer_core.Error.{AerError, spawn_failed, wait_failed, timed_out, cancelled}
use aer_core.Event.{Event, ExitReason, started, exited}
use aer_core.Task.{Task, CancelHandle, new}
use aer_core.Run.System.{returned, Pc, Call, System, init}
use aer_core.Run.Schedule.{Reach}
use aer_core.Run.Lifecycle.{HasExited}
use aer_core.Demo.Programs.{hello_task, tree_task, printed, hello_line, line, hello_main, tree_main}
use aer_core.Demo.Silent.{Silent, Plain, started_line, ended-Silent, timed_out_alive, not_cancelled}

hello_task-Plain : (windows : Bool) → Plain (hello_task windows)
unfolding hello_task new
hello_task-Plain true = (refl, refl)
hello_task-Plain false = (refl, refl)

tree_task-Plain : (windows : Bool) → Plain (tree_task windows)
unfolding tree_task new
tree_task-Plain true = (refl, refl)
tree_task-Plain false = (refl, refl)

-- Such a program, by the lines of its callback.
abbrev plain_main :
    {E : Type 0}
    → (Event → Option String)
    → (done : String) → List String
    → List Event
    → Result (Unit {0}) (AerError E)
    → List String × Result (Unit {0}) (AerError E)
plain_main shown done first l (ok u) = (done ∷ printed shown l first, ok tt)
plain_main shown done first l (err e) = (printed shown l first, err e)

abbrev tree_first : List String
tree_first =
    "AER guarantees the entire process tree is dead when run() returns.\n"
    ∷ "The root exits immediately; without AER the child would be an orphan."
    ∷ "Spawning a process that forks a long-lived background child...\n" ∷ []

abbrev Shows : (ℕ → String) → (ℤ → String) → (Event → Option String) → (close : String) → Type 0
Shows show_nat show_int shown close =
    ((pid : ℕ) → shown (started pid) ≡ some (started_line show_nat pid))
    × ((code : ℤ) (reason : ExitReason)
        → shown (exited code reason) ≡ some ("  → Exited   (code " ++ (show_int code ++ close)))

module _ {E : Type 0} (show_nat : ℕ → String) (show_int : ℤ → String)
    (debug_result : Result (Unit {0}) (AerError E) → String) where
  hello_main-plain_main :
      (l : List Event) (r : Result (Unit {0}) (AerError E))
      → hello_main show_nat show_int debug_result l r
        ≡ plain_main
            (hello_line show_nat show_int debug_result)
            "Done."
            ("Spawning task...\n" ∷ [])
            l
            r
  unfolding hello_main
  hello_main-plain_main l (ok u) = refl
  hello_main-plain_main l (err e) = refl

  tree_main-plain_main :
      (l : List Event) (r : Result (Unit {0}) (AerError E))
      → tree_main show_nat show_int debug_result l r
        ≡ plain_main
            (line show_nat show_int debug_result)
            "\nDone. Background child is gone — no orphans."
            tree_first
            l
            r
  unfolding tree_main
  tree_main-plain_main l (ok u) = refl
  tree_main-plain_main l (err e) = refl

module _ {K E : Type 0} (other : String → E) (show_nat : ℕ → String) (show_int : ℤ → String)
    (debug_result : Result (Unit {0}) (AerError E) → String) where
  -- What such a program prints after the lines `first`, and what its `main` returns, by the result of its run.
  -- `close` ends the line of the exit.
  abbrev PlainTranscript :
      (close done : String)
      → List String
      → Result (Unit {0}) (AerError E)
      → List (Call K)
      → List String × Result (Unit {0}) (AerError E)
      → Type 0
  PlainTranscript close done first (ok u) calls x =
      (pid : ℕ) × (code : ℤ) × (x ≡ (
        done
            ∷ ("  → Exited   (code " ++ (show_int code ++ close))
            ∷ started_line show_nat pid
            ∷ first,
        ok tt,
      ))
      × HasExited code calls
  PlainTranscript close done first (err (wait_failed e)) calls x =
      (pid : ℕ) × (x ≡ (started_line show_nat pid ∷ first, err (wait_failed e)))
  PlainTranscript close done first (err (spawn_failed e)) calls x =
      x ≡ (first, err (spawn_failed e))
  PlainTranscript close done first (err e) calls x = ⊥

  Silent-PlainTranscript :
      (shown : Event → Option String) (close done : String) (first : List String)
      → Shows show_nat show_int shown close
      → (r : Result (Unit {0}) (AerError E)) (l : List Event) (calls : List (Call K))
      → r ≢ err cancelled
      → r ≢ err timed_out
      → Silent r l calls
      → PlainTranscript close done first r calls (plain_main shown done first l r)
  unfolding printed
  Silent-PlainTranscript shown close done first h (ok u) l calls kept timely
        (pid, code, is_l, has_exited) =
      (pid, code, rw (is_l, printed, h.0 pid, h.1 code ExitReason.natural_exit) refl, has_exited)
  Silent-PlainTranscript shown close done first h (err cancelled) l calls kept timely e =
      absurd (kept refl)
  Silent-PlainTranscript shown close done first h (err timed_out) l calls kept timely e =
      absurd (timely refl)
  Silent-PlainTranscript shown close done first h (err (spawn_failed e)) l calls kept timely is_l =
      rw (is_l, printed) refl
  Silent-PlainTranscript shown close done first h (err (wait_failed e)) l calls kept timely
        (pid, is_l) =
      (pid, rw (is_l, printed, h.0 pid) refl)
  Silent-PlainTranscript shown close done first h (err (AerError.invalid_state_transition from to))
        l calls kept timely e =
      absurd e
  Silent-PlainTranscript shown close done first h (err (AerError.kill_failed e)) l calls kept timely
        x =
      absurd x

  ended-PlainTranscript :
      (shown : Event → Option String) (close done : String) (first : List String)
      → Shows show_nat show_int shown close
      → (t : Task) (h : CancelHandle K) (s : System K E) (r : Result (Unit {0}) (AerError E))
      → Plain t
      → Reach other t false (init E h) s
      → s.runner ≡ Pc.ended (returned r)
      → PlainTranscript close done first r s.calls (plain_main shown done first s.events r)
  ended-PlainTranscript shown close done first shows t h s r (silent, unlimited) reach e =
      Silent-PlainTranscript shown close done first shows r s.events s.calls
        (not_cancelled other t h s r reach e)
        (λ is_timed_out. (timed_out_alive other t false h s r reach e is_timed_out).0 unlimited)
        (ended-Silent other t false h s r reach e silent)

  -- `main` of the first example prints the start of its process and its exit code, the one that
  -- `wait` gave, and returns `Ok`; or it returns the error `WaitFailed` after the start, or
  -- `SpawnFailed` with no start.
  hello_main-PlainTranscript :
      (windows : Bool) (h : CancelHandle K) (s : System K E) (r : Result (Unit {0}) (AerError E))
      → Reach other (hello_task windows) false (init E h) s
      → s.runner ≡ Pc.ended (returned r)
      → PlainTranscript ")\n" "Done."
          ("Spawning task...\n" ∷ [])
          r
          s.calls
          (hello_main show_nat show_int debug_result s.events r)
  unfolding hello_line
  hello_main-PlainTranscript windows h s r reach e =
      rw (hello_main-plain_main show_nat show_int debug_result s.events r) (
        ended-PlainTranscript (hello_line show_nat show_int debug_result) ")\n" "Done."
          ("Spawning task...\n" ∷ []) ((λ pid. refl), (λ code reason. refl)) (hello_task windows) h
          s r (hello_task-Plain windows) reach e)

  -- The same of the example for process trees, where an error is a panic.
  tree_main-PlainTranscript :
      (windows : Bool) (h : CancelHandle K) (s : System K E) (r : Result (Unit {0}) (AerError E))
      → Reach other (tree_task windows) false (init E h) s
      → s.runner ≡ Pc.ended (returned r)
      → PlainTranscript ")" "\nDone. Background child is gone — no orphans." tree_first r s.calls
          (tree_main show_nat show_int debug_result s.events r)
  unfolding line
  tree_main-PlainTranscript windows h s r reach e =
      rw (tree_main-plain_main show_nat show_int debug_result s.events r) (
        ended-PlainTranscript (line show_nat show_int debug_result) ")"
          "\nDone. Background child is gone — no orphans." tree_first
          ((λ pid. refl), (λ code reason. refl)) (tree_task windows) h s r (tree_task-Plain windows)
          reach e)
