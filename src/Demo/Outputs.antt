-- ===== src/Demo/Outputs.antt =====
-- What the main threads of examples/capture.rs and examples/env.rs print: the text of each call of
-- `println!` or `print!`, newest first. `lossy` is `String::from_utf8_lossy`.
use Prim.Native.String.{◌++◌}
use mathlib.Core.List.{reverse}
use aer_core.Base.{
  ℕ, ℤ, String, Bool, ◌≡◌, refl, Option, none, some, List, [], ◌∷◌, Result, ok, err, length,
}
use aer_core.Error.{AerError}
use aer_core.Event.{Event, started, exited, stdout_chunk, stderr_chunk, debug_reason}
use aer_core.Os.Drain.{ReadAnswer, contents, drains}
use aer_core.Task.{CancelHandle}
use aer_core.Run.System.{Answer, init}
use aer_core.Run.Runner.{sinks}
use aer_core.Run.Schedule.{Turn, execute}
use aer_core.Run.Delivery.{all_received}
use aer_core.Run.Streams.{Merges}
use aer_core.Demo.{empty, collect, capture_task, env_collect}
use aer_core.Demo.Env.{env_collect-collect}
use aer_core.Demo.Capture.{concat, captured_output}
use aer_core.Demo.Programs.{printed}

module _ (show_nat : ℕ → String) (show_int : ℤ → String) where
  -- the callback of examples/capture.rs
  capture_line : Event → Option String
  unfolding debug_reason
  capture_line (started pid) = some ("  → Started  (pid " ++ (show_nat pid ++ ")"))
  capture_line (stdout_chunk seq bytes) =
      some ("  → StdoutChunk  seq=" ++ (show_nat seq ++ (" len=" ++ show_nat (length bytes))))
  capture_line (stderr_chunk seq bytes) =
      some ("  → StderrChunk  seq=" ++ (show_nat seq ++ (" len=" ++ show_nat (length bytes))))
  capture_line (exited code reason) =
      some
        ("  → Exited   (code " ++ (show_int code ++ (", reason " ++ (debug_reason reason ++ ")"))))

  -- the callback of examples/env.rs
  env_line : Event → Option String
  env_line (started pid) = some ("  → Started  (pid " ++ (show_nat pid ++ ")"))
  env_line (exited code reason) = some ("  → Exited   (code " ++ (show_int code ++ ")"))
  env_line (stdout_chunk seq bytes) = none
  env_line (stderr_chunk seq bytes) = none

  module _ {E : Type 0} (lossy : List ℕ → String) where
    -- `main` of examples/capture.rs; the `?` returns the error
    capture_main :
        List Event → Result (Unit {0}) (AerError E) → List String × Result (Unit {0}) (AerError E)
    unfolding capture_line
    capture_main events result =
        let out = printed capture_line events ("Spawning with capture enabled...\n" ∷ []) in
        let bufs = collect (reverse events) empty in
        elim result [
          | err e ↦ (out, err e)
          | ok _ ↦ (
            "\nDone."
                ∷ lossy bufs.stderr_buf
                ∷ ("\n--- stderr (" ++ (show_nat (length bufs.stderr_buf) ++ " bytes) ---"))
                ∷ lossy bufs.stdout_buf
                ∷ ("\n--- stdout (" ++ (show_nat (length bufs.stdout_buf) ++ " bytes) ---"))
                ∷ out,
            ok tt,
          )
        ]

    -- `main` of examples/env.rs; `cwd` is the text of `env::temp_dir`
    env_main :
        (cwd : String)
        → List Event
        → Result (Unit {0}) (AerError E)
        → List String × Result (Unit {0}) (AerError E)
    unfolding env_line
    env_main cwd events result =
        let first = "Spawning with AER_EXAMPLE_VAR=hello_from_aer, cwd=" ++ (cwd ++ "\n") in
        let out = printed env_line events (first ∷ []) in
        elim result [
          | err e ↦ (out, err e)
          | ok _ ↦ (
            "\nDone."
                ∷ lossy (env_collect (reverse events) [])
                ∷ "\n--- what the child saw ---"
                ∷ out,
            ok tt,
          )
        ]

    -- When the channel has delivered all that the drain threads sent and the run has returned `Ok`,
    -- the capture example prints at its end how many bytes were read of each stream, and these bytes.
    capture_main_lem :
        {K S : Type 0} (other : String → E) (with_cancel : Bool) (tx : S) (windows : Bool)
        (h : CancelHandle K) (schedule : List (Turn × Answer K E)) (first second : List ReadAnswer)
        → let t = capture_task windows in
          let sent = drains (sinks tx t.capture_output) (some first) (some second) in
          Merges sent.0 sent.1 (all_received other t with_cancel schedule (init E h))
          → let events =
              (execute other (capture_task windows) with_cancel schedule (init E h)).events in
            capture_main events (ok tt) ≡ (
              "\nDone."
                  ∷ lossy (concat (contents second))
                  ∷ ("\n--- stderr ("
                      ++ (show_nat (length (concat (contents second))) ++ " bytes) ---"))
                  ∷ lossy (concat (contents first))
                  ∷ ("\n--- stdout ("
                      ++ (show_nat (length (concat (contents first))) ++ " bytes) ---"))
                  ∷ printed capture_line events ("Spawning with capture enabled...\n" ∷ []),
              ok tt,
            )
    unfolding capture_main
    capture_main_lem other with_cancel tx windows h schedule first second m =
        let (is_first, is_second) =
          captured_output other with_cancel tx windows h schedule first second m in
        rw (is_first, is_second, capture_main) refl

    -- On the same events the environment example prints, as what its child saw, the bytes that the
    -- capture example keeps of stdout.
    env_main_lem :
        (cwd : String) (events : List Event)
        → env_main cwd events (ok tt) ≡ (
          "\nDone."
              ∷ lossy (collect (reverse events) empty).stdout_buf
              ∷ "\n--- what the child saw ---"
              ∷ printed env_line events
                  (("Spawning with AER_EXAMPLE_VAR=hello_from_aer, cwd=" ++ (cwd ++ "\n")) ∷ []),
          ok tt,
        )
    unfolding env_main
    env_main_lem cwd events = rw (env_collect-collect (reverse events) empty, env_main) refl
