-- ===== src/Run/Delivery.antt =====
-- The chunks that the callback of a run sees (src/task.rs).
use mathlib.Core.List.{reverse, reverse-cons, append-nil, append_assoc}
use aer_core.Base.{
  inl, inr, Option-cases, if_cases, String, Bool, ◌≡◌, refl, sym, ap, ◌∙◌, Option, none, some, List,
  [], ◌∷◌, ◌++◌, arith,
}
use aer_core.Event.{Event, started, exited, stdout_chunk, stderr_chunk}
use aer_core.Os.{ChunkMsg}
use aer_core.Task.{Task, CancelHandle}
use aer_core.Run.System.{Pc, System, Answer, init}
use aer_core.Run.Runner.{run_from, runner_step, chunk_event}
use aer_core.Run.Schedule.{Turn, turn_step, execute}
use aer_core.Run.Frame.{monitor_step-Frame, cancel_step-Frame}

-- The chunks among the events, newest first, with their streams.
abbrev pub chunks_of : List Event → List ChunkMsg
chunks_of [] = []
chunks_of (started pid ∷ l) = chunks_of l
chunks_of (exited code reason ∷ l) = chunks_of l
chunks_of (stdout_chunk seq bytes ∷ l) = ChunkMsg.stdout seq bytes ∷ chunks_of l
chunks_of (stderr_chunk seq bytes ∷ l) = ChunkMsg.stderr seq bytes ∷ chunks_of l

chunks_of-chunk_event :
    (m : ChunkMsg) (l : List Event) → chunks_of (chunk_event m ∷ l) ≡ m ∷ chunks_of l
unfolding chunk_event
chunks_of-chunk_event (ChunkMsg.stdout seq bytes) l = refl
chunks_of-chunk_event (ChunkMsg.stderr seq bytes) l = refl

-- The first list pushed onto the second, one by one.
abbrev pushed : List ChunkMsg → List ChunkMsg → List ChunkMsg
pushed [] l = l
pushed (m ∷ ms) l = pushed ms (m ∷ l)

reverse-pushed : (ms l : List ChunkMsg) → reverse (pushed ms l) ≡ reverse l ++ ms
reverse-pushed [] l = sym (append-nil (reverse l))
reverse-pushed (m ∷ ms) l =
    reverse-pushed ms (m ∷ l) ∙ rw (reverse-cons m l) (append_assoc (reverse l) (m ∷ []) ms)

abbrev one : Option ChunkMsg → List ChunkMsg
one none = []
one (some m) = m ∷ []

-- The message that the capture loop takes from the channel in one step.
abbrev received : {K E : Type 0} → Pc K E → Option ChunkMsg → List ChunkMsg
received (Pc.pumping h) message = one message
received _ message = []

abbrev received_at : {K E : Type 0} → Turn → Pc K E → Option ChunkMsg → List ChunkMsg
received_at Turn.runner pc message = received pc message
received_at _ pc message = []

pushed-append :
    (before after : List ChunkMsg) (l : List ChunkMsg)
    → pushed after (pushed before l) ≡ pushed (before ++ after) l
pushed-append [] after l = refl
pushed-append (m ∷ before) after l = pushed-append before after (m ∷ l)

module _ {K E : Type 0} (other : String → E) (t : Task) (with_cancel : Bool) where
  run_from-chunks :
      (a : Answer K E) (pc : Pc K E) (s : System K E)
      → chunks_of (run_from other t with_cancel a pc s).events
        ≡ pushed (received pc a.message) (chunks_of s.events)
  unfolding run_from
  run_from-chunks a Pc.spawning s = ground arith
  run_from-chunks a (Pc.pumping h) s = elim (Option-cases a.message) [
    | inl none_left ↦ rw none_left (
        if_cases (λ (s' : System K E). chunks_of s'.events ≡ chunks_of s.events) s.chunk_tx refl
          refl)
    | inr (m, e) ↦ rw e (
        if_cases (λ (s' : System K E). chunks_of s'.events ≡ pushed (m ∷ []) (chunks_of s.events))
          a.panics (chunks_of-chunk_event m s.events) (chunks_of-chunk_event m s.events))
  ]
  run_from-chunks a _ s = ground arith

  turn_step-chunks :
      (turn : Turn) (a : Answer K E) (s : System K E)
      → chunks_of (turn_step other t with_cancel turn a s).events
        ≡ pushed (received_at turn s.runner a.message) (chunks_of s.events)
  unfolding turn_step runner_step
  turn_step-chunks Turn.runner a s = run_from-chunks a s.runner s
  turn_step-chunks Turn.monitor a s = ap chunks_of (monitor_step-Frame s a).events
  turn_step-chunks (Turn.canceller i) a s = ap chunks_of (cancel_step-Frame s a i).events

  -- The messages that the capture loop takes from the channel on a schedule, in order.
  unfoldable pub all_received : List (Turn × Answer K E) → System K E → List ChunkMsg
  all_received [] s = []
  all_received ((turn, a) ∷ schedule) s =
      received_at turn s.runner a.message
      ++ all_received schedule (turn_step other t with_cancel turn a s)

  execute-chunks :
      (schedule : List (Turn × Answer K E)) (s : System K E)
      → chunks_of (execute other t with_cancel schedule s).events
        ≡ pushed (all_received schedule s) (chunks_of s.events)
  unfolding execute all_received
  execute-chunks [] s = refl
  execute-chunks ((turn, a) ∷ schedule) s =
      let u = turn_step other t with_cancel turn a s in
      execute-chunks schedule u
      ∙ ap (pushed (all_received schedule u)) (turn_step-chunks turn a s)
      ∙ pushed-append (received_at turn s.runner a.message) (all_received schedule u)
          (chunks_of s.events)

  -- On every schedule the callback has seen exactly the chunks that the capture loop took from the
  -- channel, each with its stream, number and bytes, in the order of arrival: none is lost, doubled,
  -- changed or moved, also where the callback panics.
  pub chunks_in_order :
      (h : CancelHandle K) (schedule : List (Turn × Answer K E))
      → reverse (chunks_of (execute other t with_cancel schedule (init E h)).events)
        ≡ all_received schedule (init E h)
  unfolding init
  chunks_in_order h schedule =
      ap reverse (execute-chunks schedule (init E h))
      ∙ reverse-pushed (all_received schedule (init E h)) []
