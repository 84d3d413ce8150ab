-- ===== src/Demo/Examples.antt =====
-- The capture program of examples/ on a run whose child writes to both streams, and the order of the
-- streams in it.
use mathlib.Core.List.{reverse}
use aer_core.Base.{
  ℕ, pos, ◌<◌, ◌^◌, true, false, ◌≡◌, refl, some, List, [], ◌∷◌, ◌++◌, length, arith,
}
use aer_core.Os.{ChunkMsg}
use aer_core.Os.Drain.{ReadAnswer, contents, numbered, drain, drains, spawn_drain_thread}
use aer_core.Task.{new, with_capture_output}
use aer_core.Run.System.{System, Answer, init}
use aer_core.Run.Runner.{sinks, runner_step, chunk_event}
use aer_core.Run.Schedule.{Turn, turn_step, execute}
use aer_core.Run.Completion.{undisturbed}
use aer_core.Run.Delivery.{chunks_of, all_received}
use aer_core.Run.Fixtures.{no_error, child, fresh, captured}
use aer_core.Run.Streams.{Merges, done, from_first, from_second, of_stdout, of_stderr, stream_order}
use aer_core.Demo.{collect, empty, capture_task}
use aer_core.Demo.Capture.{concat, captured_output}

-- "ab" in two reads, and "!" in one.
abbrev out : List ReadAnswer
out = ReadAnswer.bytes (97 ∷ []) ∷ ReadAnswer.bytes (98 ∷ []) ∷ ReadAnswer.bytes [] ∷ []

abbrev err : List ReadAnswer
err = ReadAnswer.bytes (33 ∷ []) ∷ ReadAnswer.failed ∷ []

abbrev arrived : List ChunkMsg
arrived =
    ChunkMsg.stdout 0 (97 ∷ []) ∷ ChunkMsg.stderr 0 (33 ∷ []) ∷ ChunkMsg.stdout 1 (98 ∷ []) ∷ []

abbrev schedule : List (Turn × Answer ℕ ℕ)
schedule = undisturbed true child (pos 0) arrived

abbrev finished : System ℕ ℕ
finished = execute no_error (capture_task false) true schedule (init ℕ fresh)

merged :
    let sent = drains (sinks tt (capture_task false).capture_output) (some out) (some err) in
    Merges sent.0 sent.1 (all_received no_error (capture_task false) true schedule (init ℕ fresh))
unfolding capture_task sinks drains spawn_drain_thread drain all_received turn_step runner_step init
    chunk_event new with_capture_output
merged = from_first (from_second (from_first done))

captured_output_example :
    let bufs = collect (reverse finished.events) empty in
    (bufs.stdout_buf ≡ concat (contents out)) × (bufs.stderr_buf ≡ concat (contents err))
captured_output_example = captured_output no_error true tt false fresh schedule out err merged

-- A run at the moment at which the second read of stdout has not arrived.
abbrev partly_arrived : List (Turn × Answer ℕ ℕ)
partly_arrived =
    undisturbed true child (pos 0) (ChunkMsg.stderr 0 (33 ∷ []) ∷ ChunkMsg.stdout 0 (97 ∷ []) ∷ [])

partly_merged :
    Merges
      (ChunkMsg.stdout 0 (97 ∷ []) ∷ [])
      (ChunkMsg.stderr 0 (33 ∷ []) ∷ [])
      (all_received no_error captured true partly_arrived (init ℕ fresh))
unfolding all_received turn_step runner_step init chunk_event
partly_merged = from_second (from_first done)

out-short : length (contents out) < 2 ^ 64
unfolding contents
out-short = omega arith

err-short : length (contents err) < 2 ^ 64
unfolding contents
err-short = omega arith

sent_out :
    (drains (sinks tt captured.capture_output) (some out) (some err)).0
    ≡ (ChunkMsg.stdout 0 (97 ∷ []) ∷ []) ++ (ChunkMsg.stdout 1 (98 ∷ []) ∷ [])
unfolding sinks drains spawn_drain_thread drain
sent_out = refl

sent_err :
    (drains (sinks tt captured.capture_output) (some out) (some err)).1
    ≡ (ChunkMsg.stderr 0 (33 ∷ []) ∷ []) ++ []
unfolding sinks drains spawn_drain_thread drain
sent_err = refl

stream_order_example :
    let events = (execute no_error captured true partly_arrived (init ℕ fresh)).events in
    let seen = reverse (chunks_of events) in
    (of_stdout seen ++ (ChunkMsg.stdout 1 (98 ∷ []) ∷ [])
      ≡ numbered ChunkMsg.stdout 0 (contents out))
    × (of_stderr seen ++ [] ≡ numbered ChunkMsg.stderr 0 (contents err))
stream_order_example =
    stream_order no_error captured true tt fresh partly_arrived out err
      (ChunkMsg.stdout 0 (97 ∷ []) ∷ []) (ChunkMsg.stderr 0 (33 ∷ []) ∷ [])
      (ChunkMsg.stdout 1 (98 ∷ []) ∷ []) [] refl out-short err-short sent_out sent_err partly_merged
