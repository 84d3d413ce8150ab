-- ===== src/Run/Streams.antt =====
-- The two captured streams of a run (src/task.rs, src/os/mod.rs): what the drain threads send through
-- one channel reaches the callback stream by stream.
use mathlib.Core.List.{reverse}
use aer_core.Base.{
  ℕ, ◌+◌, ◌%◌, ◌<◌, ◌^◌, String, Bool, true, false, ◌≡◌, refl, sym, subst, ap, ◌∙◌, some, List, [],
  ◌∷◌, ◌++◌, length,
}
use aer_core.Os.{ChunkMsg}
use aer_core.Os.Drain.{
  ReadAnswer, contents, numbered, drain, drains, spawn_drain_thread, spawn_drain_thread_lem,
}
use aer_core.Task.{Task, CancelHandle}
use aer_core.Run.System.{Answer, init}
use aer_core.Run.Runner.{sinks}
use aer_core.Run.Schedule.{Turn, execute}
use aer_core.Run.Delivery.{chunks_of, all_received, chunks_in_order}

-- A channel with two senders delivers what they send: each sender's messages in its order, the two
-- orders interleaved somehow.
pub data Merges {A : Type 0} : List A → List A → List A → Type 0 where
  done : Merges [] [] []
  from_first : {x : A} {p q r : List A} → Merges p q r → Merges (x ∷ p) q (x ∷ r)
  from_second : {y : A} {p q r : List A} → Merges p q r → Merges p (y ∷ q) (y ∷ r)

abbrev pub of_stdout : List ChunkMsg → List ChunkMsg
of_stdout [] = []
of_stdout (ChunkMsg.stdout seq bytes ∷ l) = ChunkMsg.stdout seq bytes ∷ of_stdout l
of_stdout (ChunkMsg.stderr seq bytes ∷ l) = of_stdout l

abbrev pub of_stderr : List ChunkMsg → List ChunkMsg
of_stderr [] = []
of_stderr (ChunkMsg.stdout seq bytes ∷ l) = of_stderr l
of_stderr (ChunkMsg.stderr seq bytes ∷ l) = ChunkMsg.stderr seq bytes ∷ of_stderr l

-- All messages are of one stream.
abbrev pub AllStdout : List ChunkMsg → Type 0
AllStdout [] = Unit
AllStdout (ChunkMsg.stdout seq bytes ∷ l) = AllStdout l
AllStdout (ChunkMsg.stderr seq bytes ∷ l) = ⊥

abbrev pub AllStderr : List ChunkMsg → Type 0
AllStderr [] = Unit
AllStderr (ChunkMsg.stdout seq bytes ∷ l) = ⊥
AllStderr (ChunkMsg.stderr seq bytes ∷ l) = AllStderr l

pub Merges-split :
    {p q r : List ChunkMsg}
    → Merges p q r
    → AllStdout p
    → AllStderr q
    → (of_stdout r ≡ p) × (of_stderr r ≡ q)
Merges-split done a b = (refl, refl)
Merges-split (from_first {x = ChunkMsg.stdout seq bytes} m) a b =
    let (e, f) = Merges-split m a b in (ap (λ l. ChunkMsg.stdout seq bytes ∷ l) e, f)
Merges-split (from_first {x = ChunkMsg.stderr seq bytes} m) a b = absurd a
Merges-split (from_second {y = ChunkMsg.stdout seq bytes} m) a b = absurd b
Merges-split (from_second {y = ChunkMsg.stderr seq bytes} m) a b =
    let (e, f) = Merges-split m a b in (e, ap (λ l. ChunkMsg.stderr seq bytes ∷ l) f)

pub drain-AllStdout :
    (seq : ℕ) (reads : List ReadAnswer) → AllStdout (drain ChunkMsg.stdout seq reads)
unfolding drain
drain-AllStdout seq [] = tt
drain-AllStdout seq (ReadAnswer.failed ∷ reads) = tt
drain-AllStdout seq (ReadAnswer.bytes [] ∷ reads) = tt
drain-AllStdout seq (ReadAnswer.bytes (b ∷ bs) ∷ reads) = drain-AllStdout ((seq + 1) % 2 ^ 64) reads

pub drain-AllStderr :
    (seq : ℕ) (reads : List ReadAnswer) → AllStderr (drain ChunkMsg.stderr seq reads)
unfolding drain
drain-AllStderr seq [] = tt
drain-AllStderr seq (ReadAnswer.failed ∷ reads) = tt
drain-AllStderr seq (ReadAnswer.bytes [] ∷ reads) = tt
drain-AllStderr seq (ReadAnswer.bytes (b ∷ bs) ∷ reads) = drain-AllStderr ((seq + 1) % 2 ^ 64) reads

AllStdout-prefix : (p rest : List ChunkMsg) → AllStdout (p ++ rest) → AllStdout p
AllStdout-prefix [] rest h = tt
AllStdout-prefix (ChunkMsg.stdout seq bytes ∷ p) rest h = AllStdout-prefix p rest h
AllStdout-prefix (ChunkMsg.stderr seq bytes ∷ p) rest h = h

AllStderr-prefix : (p rest : List ChunkMsg) → AllStderr (p ++ rest) → AllStderr p
AllStderr-prefix [] rest h = tt
AllStderr-prefix (ChunkMsg.stdout seq bytes ∷ p) rest h = h
AllStderr-prefix (ChunkMsg.stderr seq bytes ∷ p) rest h = AllStderr-prefix p rest h

drains-sinks :
    {S : Type 0} (tx : S) (capture : Bool) (out err : List ReadAnswer)
    → capture ≡ true
    → drains (sinks tx capture) (some out) (some err) ≡ (
      spawn_drain_thread (some tx) ChunkMsg.stdout out,
      spawn_drain_thread (some tx) ChunkMsg.stderr err,
    )
unfolding drains sinks
drains-sinks tx true out err e = refl
drains-sinks tx false out err e = cc

module _ {K E S : Type 0} (other : String → E) (t : Task) (with_cancel : Bool) (tx : S) where
  -- With capture enabled, take any moment of a run at which the channel has delivered some of the
  -- messages of each drain thread, `p` and `q`, interleaved somehow. If neither stream has 2^64
  -- reads, then the chunks of each stream that the callback has seen are the first reads of that
  -- stream, in order and numbered 0, 1, 2 and so on: what is missing is what has not arrived.
  pub stream_order :
      (h : CancelHandle K) (schedule : List (Turn × Answer K E)) (out err : List ReadAnswer)
      (p q missing_out missing_err : List ChunkMsg)
      → t.capture_output ≡ true
      → length (contents out) < 2 ^ 64
      → length (contents err) < 2 ^ 64
      → (drains (sinks tx t.capture_output) (some out) (some err)).0 ≡ p ++ missing_out
      → (drains (sinks tx t.capture_output) (some out) (some err)).1 ≡ q ++ missing_err
      → Merges p q (all_received other t with_cancel schedule (init E h))
      → let seen = reverse (chunks_of (execute other t with_cancel schedule (init E h)).events) in
        (of_stdout seen ++ missing_out ≡ numbered ChunkMsg.stdout 0 (contents out))
        × (of_stderr seen ++ missing_err ≡ numbered ChunkMsg.stderr 0 (contents err))
  stream_order h schedule out err p q missing_out missing_err capture short_out short_err e f m =
      let both = drains-sinks tx t.capture_output out err capture in
      let e' = sym (ap (λ x. x.0) both) ∙ e in
      let f' = sym (ap (λ x. x.1) both) ∙ f in
      let (split_out, split_err) =
        Merges-split m (AllStdout-prefix p missing_out (subst AllStdout e' (stdout_only out)))
          (AllStderr-prefix q missing_err (subst AllStderr f' (stderr_only err))) in
      rw (chunks_in_order other t with_cancel h schedule, split_out, split_err)
        (
          sym e' ∙ spawn_drain_thread_lem tx ChunkMsg.stdout out short_out,
          sym f' ∙ spawn_drain_thread_lem tx ChunkMsg.stderr err short_err,
        )
    where
      stdout_only :
          (reads : List ReadAnswer) → AllStdout (spawn_drain_thread (some tx) ChunkMsg.stdout reads)
      stdout_only reads = unfold spawn_drain_thread in drain-AllStdout 0 reads

      stderr_only :
          (reads : List ReadAnswer) → AllStderr (spawn_drain_thread (some tx) ChunkMsg.stderr reads)
      stderr_only reads = unfold spawn_drain_thread in drain-AllStderr 0 reads
