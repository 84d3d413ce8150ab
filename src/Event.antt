-- ===== src/Event.antt =====
-- src/event.rs: the events of one run and the reasons for its end.
use Prim.Native.String.{◌++◌}
use aer_core.Base.{ℕ, ℤ, String, List, length}

-- `enum ExitReason`
pub data ExitReason : Type 0 where
  natural_exit timed_out cancel_requested : ExitReason

-- `reason as u32`, by the discriminants that `#[repr(u32)]` fixes
unfoldable pub reason_code : ExitReason → ℕ
reason_code natural_exit = 0
reason_code timed_out = 1
reason_code cancel_requested = 2

-- `enum Event`; bytes are numbers below 256
pub data Event : Type 0 where
  started : (pid : ℕ) → Event
  exited : (code : ℤ) (reason : ExitReason) → Event
  stdout_chunk : (seq : ℕ) (bytes : List ℕ) → Event
  stderr_chunk : (seq : ℕ) (bytes : List ℕ) → Event

-- the derived `Debug` of `ExitReason`
unfoldable pub debug_reason : ExitReason → String
debug_reason natural_exit = "NaturalExit"
debug_reason timed_out = "TimedOut"
debug_reason cancel_requested = "CancelRequested"

-- `impl Display for Event`; the decimal texts of numbers are std's
unfoldable pub show_event : (ℕ → String) → (ℤ → String) → Event → String
unfolding debug_reason
show_event show_nat show_int (started pid) = "Started(pid=" ++ (show_nat pid ++ ")")
show_event show_nat show_int (exited code reason) =
    "Exited(code=" ++ (show_int code ++ (", reason=" ++ (debug_reason reason ++ ")")))
show_event show_nat show_int (stdout_chunk seq bytes) =
    "StdoutChunk(seq=" ++ (show_nat seq ++ (", len=" ++ (show_nat (length bytes) ++ ")")))
show_event show_nat show_int (stderr_chunk seq bytes) =
    "StderrChunk(seq=" ++ (show_nat seq ++ (", len=" ++ (show_nat (length bytes) ++ ")")))
