-- ===== src/Demo/Capture.antt =====
-- What the example programs collect is what was read from the child's pipes: from the pipes of src/os/mod.rs over the
-- channel and the events of src/task.rs to the callback of examples/capture.rs.
use mathlib.Core.List.{reverse, reverse-cons, append-nil, append_assoc}
use aer_core.Base.{
  ℕ, ◌+◌, ◌%◌, ◌^◌, String, Bool, ◌≡◌, refl, sym, ap, ◌∙◌, some, List, [], ◌∷◌, ◌++◌,
}
use aer_core.Event.{Event, started, exited, stdout_chunk, stderr_chunk}
use aer_core.Os.{ChunkMsg}
use aer_core.Os.Drain.{ReadAnswer, contents, drain, drains, spawn_drain_thread}
use aer_core.Task.{CancelHandle, new, with_capture_output}
use aer_core.Run.System.{Answer, init}
use aer_core.Run.Runner.{sinks}
use aer_core.Run.Schedule.{Turn, execute}
use aer_core.Run.Delivery.{chunks_of, all_received, chunks_in_order}
use aer_core.Run.Streams.{
  Merges, Merges-split, of_stdout, of_stderr, drain-AllStdout, drain-AllStderr,
}
use aer_core.Demo.{Buffers, empty, on_event, collect, capture_task}

abbrev pub concat : List (List ℕ) → List ℕ
concat [] = []
concat (l ∷ ls) = l ++ concat ls

-- The bytes of messages of any stream.
abbrev bytes_of : List ChunkMsg → List ℕ
bytes_of [] = []
bytes_of (ChunkMsg.stdout seq bytes ∷ l) = bytes ++ bytes_of l
bytes_of (ChunkMsg.stderr seq bytes ∷ l) = bytes ++ bytes_of l

drain-bytes_of :
    (make_msg : ℕ → List ℕ → ChunkMsg) (seq : ℕ) (reads : List ReadAnswer)
    → ((n : ℕ) (l : List ℕ) (ms : List ChunkMsg) → bytes_of (make_msg n l ∷ ms) ≡ l ++ bytes_of ms)
    → bytes_of (drain make_msg seq reads) ≡ concat (contents reads)
unfolding drain contents
drain-bytes_of make_msg seq [] h = refl
drain-bytes_of make_msg seq (ReadAnswer.failed ∷ reads) h = refl
drain-bytes_of make_msg seq (ReadAnswer.bytes [] ∷ reads) h = refl
drain-bytes_of make_msg seq (ReadAnswer.bytes (b ∷ bs) ∷ reads) h =
    h seq (b ∷ bs) (drain make_msg ((seq + 1) % 2 ^ 64) reads)
    ∙ ap (λ (l : List ℕ). (b ∷ bs) ++ l) (drain-bytes_of make_msg ((seq + 1) % 2 ^ 64) reads h)

chunks_of-append : (l m : List Event) → chunks_of (l ++ m) ≡ chunks_of l ++ chunks_of m
chunks_of-append [] m = refl
chunks_of-append (started pid ∷ l) m = chunks_of-append l m
chunks_of-append (exited code reason ∷ l) m = chunks_of-append l m
chunks_of-append (stdout_chunk seq bytes ∷ l) m =
    ap (λ (c : List ChunkMsg). ChunkMsg.stdout seq bytes ∷ c) (chunks_of-append l m)
chunks_of-append (stderr_chunk seq bytes ∷ l) m =
    ap (λ (c : List ChunkMsg). ChunkMsg.stderr seq bytes ∷ c) (chunks_of-append l m)

chunks_of-reverse : (l : List Event) → chunks_of (reverse l) ≡ reverse (chunks_of l)
chunks_of-reverse [] = refl
chunks_of-reverse (e ∷ l) =
    ap chunks_of (reverse-cons e l)
    ∙ chunks_of-append (reverse l) (e ∷ [])
    ∙ ap (λ (c : List ChunkMsg). c ++ chunks_of (e ∷ [])) (chunks_of-reverse l)
    ∙ last e
  where
    last : (e : Event) → reverse (chunks_of l) ++ chunks_of (e ∷ []) ≡ reverse (chunks_of (e ∷ l))
    last (started pid) = append-nil (reverse (chunks_of l))
    last (exited code reason) = append-nil (reverse (chunks_of l))
    last (stdout_chunk seq bytes) = sym (reverse-cons _ (chunks_of l))
    last (stderr_chunk seq bytes) = sym (reverse-cons _ (chunks_of l))

collect-stdout_buf :
    (l : List Event) (b : Buffers)
    → (collect l b).stdout_buf ≡ b.stdout_buf ++ bytes_of (of_stdout (chunks_of l))
unfolding collect on_event
collect-stdout_buf [] b = sym (append-nil b.stdout_buf)
collect-stdout_buf (started pid ∷ l) b = collect-stdout_buf l b
collect-stdout_buf (exited code reason ∷ l) b = collect-stdout_buf l b
collect-stdout_buf (stderr_chunk seq bytes ∷ l) b =
    collect-stdout_buf l (record b { stderr_buf = b.stderr_buf ++ bytes })
collect-stdout_buf (stdout_chunk seq bytes ∷ l) b =
    collect-stdout_buf l (record b { stdout_buf = b.stdout_buf ++ bytes })
    ∙ append_assoc b.stdout_buf bytes (bytes_of (of_stdout (chunks_of l)))

collect-stderr_buf :
    (l : List Event) (b : Buffers)
    → (collect l b).stderr_buf ≡ b.stderr_buf ++ bytes_of (of_stderr (chunks_of l))
unfolding collect on_event
collect-stderr_buf [] b = sym (append-nil b.stderr_buf)
collect-stderr_buf (started pid ∷ l) b = collect-stderr_buf l b
collect-stderr_buf (exited code reason ∷ l) b = collect-stderr_buf l b
collect-stderr_buf (stdout_chunk seq bytes ∷ l) b =
    collect-stderr_buf l (record b { stdout_buf = b.stdout_buf ++ bytes })
collect-stderr_buf (stderr_chunk seq bytes ∷ l) b =
    collect-stderr_buf l (record b { stderr_buf = b.stderr_buf ++ bytes })
    ∙ append_assoc b.stderr_buf bytes (bytes_of (of_stderr (chunks_of l)))

module _ {K E S : Type 0} (other : String → E) (with_cancel : Bool) (tx : S) (windows : Bool) where
  -- When the example program for capture has run and the channel has delivered all that the two
  -- drain threads sent, interleaved somehow, its two buffers hold exactly the bytes that these
  -- threads read from stdout and from stderr, whatever the schedule and the sizes of the reads. A
  -- thread reads to the end of its pipe or to the first read that fails: what the child writes after
  -- a failed read is lost.
  pub captured_output :
      (h : CancelHandle K) (schedule : List (Turn × Answer K E)) (out err : List ReadAnswer)
      → let t = capture_task windows in
        let sent = drains (sinks tx t.capture_output) (some out) (some err) in
        Merges sent.0 sent.1 (all_received other t with_cancel schedule (init E h))
        → let s = execute other (capture_task windows) with_cancel schedule (init E h) in
          let bufs = collect (reverse s.events) empty in
          (bufs.stdout_buf ≡ concat (contents out)) × (bufs.stderr_buf ≡ concat (contents err))
  unfolding capture_task drains sinks spawn_drain_thread new with_capture_output
  captured_output h schedule out err m =
      let t = capture_task windows in
      let events = (execute other t with_cancel schedule (init E h)).events in
      let received = all_received other t with_cancel schedule (init E h) in
      let (split_out, split_err) = Merges-split m (drain-AllStdout 0 out) (drain-AllStderr 0 err) in
      let seen : chunks_of (reverse events) ≡ received =
        chunks_of-reverse events ∙ chunks_in_order other t with_cancel h schedule in
      (
        collect-stdout_buf (reverse events) empty
            ∙ ap (λ (c : List ChunkMsg). bytes_of (of_stdout c)) seen
            ∙ ap bytes_of split_out
            ∙ drain-bytes_of ChunkMsg.stdout 0 out (λ n l ms. refl),
        collect-stderr_buf (reverse events) empty
            ∙ ap (λ (c : List ChunkMsg). bytes_of (of_stderr c)) seen
            ∙ ap bytes_of split_err
            ∙ drain-bytes_of ChunkMsg.stderr 0 err (λ n l ms. refl),
      )
