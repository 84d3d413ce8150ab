-- ===== src/Os/Drain.antt =====
-- The drain threads of src/os/mod.rs. The pipe belongs to std: it is the sequence of answers that
-- its successive `read` calls give, of which the loop sees as many as it makes calls.
use aer_core.Base.{
  ℕ, suc, ◌+◌, ◌%◌, ◌^◌, ◌<◌, ◌≡◌, refl, ap, ◌∙◌, Option, none, some, List, [], ◌∷◌, arith, length,
}
use aer_core.Os.{ChunkMsg, OutputSinks}

-- The size of the read buffer.
abbrev pub buffer_size : ℕ
buffer_size = 8192

-- What one `read` gives: `Ok(n)` with the first `n` bytes of the buffer, or an error.
pub data ReadAnswer : Type 0 where
  bytes : List ℕ → ReadAnswer
  failed : ReadAnswer

-- The loop of `spawn_drain_thread` with a sender: the messages that it sends, in order. `seq` is a
-- `u64`. A send to a receiver that is gone changes nothing here.
unfoldable pub drain : (ℕ → List ℕ → ChunkMsg) → ℕ → List ReadAnswer → List ChunkMsg
drain make_msg seq [] = []
drain make_msg seq (failed ∷ reads) = []
drain make_msg seq (bytes [] ∷ reads) = []
drain make_msg seq (bytes (b ∷ bs) ∷ reads) =
    make_msg seq (b ∷ bs) ∷ drain make_msg ((seq + 1) % 2 ^ 64) reads

-- `spawn_drain_thread`; without a sender the bytes are discarded
unfoldable pub spawn_drain_thread :
    {Sender : Type 0} → Option Sender → (ℕ → List ℕ → ChunkMsg) → List ReadAnswer → List ChunkMsg
unfolding drain
spawn_drain_thread none make_msg reads = []
spawn_drain_thread (some tx) make_msg reads = drain make_msg 0 reads

abbrev drain_pipe :
    {Sender : Type 0}
    → Option Sender
    → (ℕ → List ℕ → ChunkMsg)
    → Option (List ReadAnswer)
    → List ChunkMsg
unfolding spawn_drain_thread
drain_pipe tx make_msg none = []
drain_pipe tx make_msg (some reads) = spawn_drain_thread tx make_msg reads

-- The two drain threads of `wait`, one for each pipe that the child has: what each of them sends.
unfoldable pub drains :
    {Sender : Type 0}
    → OutputSinks Sender
    → (out err : Option (List ReadAnswer)) → List ChunkMsg × List ChunkMsg
unfolding drain_pipe
drains sinks out err =
    (drain_pipe sinks.stdout ChunkMsg.stdout out, drain_pipe sinks.stderr ChunkMsg.stderr err)

-- What the child wrote before the end of the pipe or the first error, read by read.
unfoldable pub contents : List ReadAnswer → List (List ℕ)
contents [] = []
contents (failed ∷ reads) = []
contents (bytes [] ∷ reads) = []
contents (bytes (b ∷ bs) ∷ reads) = (b ∷ bs) ∷ contents reads

-- Messages with consecutive numbers from `seq` on.
unfoldable pub numbered : (ℕ → List ℕ → ChunkMsg) → ℕ → List (List ℕ) → List ChunkMsg
numbered make_msg seq [] = []
numbered make_msg seq (chunk ∷ chunks) = make_msg seq chunk ∷ numbered make_msg (suc seq) chunks

drain-numbered :
    (make_msg : ℕ → List ℕ → ChunkMsg) (seq : ℕ) (reads : List ReadAnswer)
    → seq + length (contents reads) < 2 ^ 64
    → drain make_msg seq reads ≡ numbered make_msg seq (contents reads)
unfolding drain contents numbered
drain-numbered make_msg seq [] h = refl
drain-numbered make_msg seq (failed ∷ reads) h = refl
drain-numbered make_msg seq (bytes [] ∷ reads) h = refl
drain-numbered make_msg seq (bytes (b ∷ bs) ∷ reads) h =
    ap (λ (l : List ChunkMsg). make_msg seq (b ∷ bs) ∷ l)
      (ap (λ (n : ℕ). drain make_msg n reads) step
        ∙ drain-numbered make_msg (suc seq) reads (omega arith))
  where
    step : (seq + 1) % 2 ^ 64 ≡ suc seq
    step = omega arith

-- A drain thread with a sender forwards what the child wrote before the end of its pipe or the first
-- read error: one message for each read, with the bytes of that read, in order, numbered 0, 1, 2
-- and so on. The condition is that there are fewer than 2^64 reads, so that `seq` does not wrap.
pub spawn_drain_thread_lem :
    {Sender : Type 0} (tx : Sender) (make_msg : ℕ → List ℕ → ChunkMsg) (reads : List ReadAnswer)
    → length (contents reads) < 2 ^ 64
    → spawn_drain_thread (some tx) make_msg reads ≡ numbered make_msg 0 (contents reads)
unfolding spawn_drain_thread
spawn_drain_thread_lem tx make_msg reads h = drain-numbered make_msg 0 reads (omega arith)
