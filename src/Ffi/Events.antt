-- ===== src/Ffi/Events.antt =====
-- The C event of src/ffi.rs, which the callback receives.
use mathlib.Core.Option
use aer_core.Base.{ℕ, zero, suc, ℤ, pos, ◌≡◌, refl, Option, none, some, List, [], ◌∷◌, length, ap}
use aer_core.Event.{Event, ExitReason, reason_code, started, exited, stdout_chunk, stderr_chunk}

-- `struct AerEvent`. `data` stands for the memory that the pointer leads to, `none` for NULL.
pub record AerEvent : Type 0 where
  pub kind : ℕ
  pub pid : ℕ
  pub code : ℤ
  pub reason : ℕ
  pub seq : ℕ
  pub bytes : Option (List ℕ)
  pub data_len : ℕ

-- the `match` of the closure `on_event` in `aer_task_run`
unfoldable pub c_event : Event → AerEvent
unfolding reason_code
c_event (started pid) = record {
  kind = 0;
  pid = pid;
  code = pos 0;
  reason = 0;
  seq = 0;
  bytes = none;
  data_len = 0;
}
c_event (exited code reason) = record {
  kind = 1;
  pid = 0;
  code = code;
  reason = reason_code reason;
  seq = 0;
  bytes = none;
  data_len = 0;
}
c_event (stdout_chunk seq bytes) = record {
  kind = 2;
  pid = 0;
  code = pos 0;
  reason = 0;
  seq = seq;
  bytes = some bytes;
  data_len = length bytes;
}
c_event (stderr_chunk seq bytes) = record {
  kind = 3;
  pid = 0;
  code = pos 0;
  reason = 0;
  seq = seq;
  bytes = some bytes;
  data_len = length bytes;
}

-- How a C caller reads an event by the documentation of include/aer.h: `kind` selects the fields.
read_reason : ℕ → Option ExitReason
read_reason zero = some ExitReason.natural_exit
read_reason (suc zero) = some ExitReason.timed_out
read_reason (suc (suc zero)) = some ExitReason.cancel_requested
read_reason (suc (suc (suc n))) = none

-- `data_len` bytes of the memory at `data`; `none` if that reads out of bounds.
read_bytes : ℕ → List ℕ → Option (List ℕ)
read_bytes zero l = some []
read_bytes (suc n) [] = none
read_bytes (suc n) (b ∷ l) = Option.map (λ r. b ∷ r) (read_bytes n l)

read_data : Option (List ℕ) → ℕ → Option (List ℕ)
unfolding read_bytes
read_data none n = none
read_data (some l) n = read_bytes n l

read_kind : ℕ → AerEvent → Option Event
unfolding read_reason read_data
read_kind zero e = some (started e.pid)
read_kind (suc zero) e = Option.map (exited e.code) (read_reason e.reason)
read_kind (suc (suc zero)) e = Option.map (stdout_chunk e.seq) (read_data e.bytes e.data_len)
read_kind (suc (suc (suc zero))) e = Option.map (stderr_chunk e.seq) (read_data e.bytes e.data_len)
read_kind (suc (suc (suc (suc n)))) e = none

pub read_event : AerEvent → Option Event
unfolding read_kind
read_event e = read_kind e.kind e

read_bytes-length : (l : List ℕ) → read_bytes (length l) l ≡ some l
unfolding read_bytes
read_bytes-length [] = refl
read_bytes-length (b ∷ l) = ap (Option.map (λ r. b ∷ r)) (read_bytes-length l)

-- A C caller that reads the fields that `kind` selects gets the event back, with its process id, its
-- exit code and reason, or its sequence number and all of its bytes, and reads no memory beyond
-- the chunk.
pub read_event-c_event : (e : Event) → read_event (c_event e) ≡ some e
unfolding read_event c_event
read_event-c_event (started pid) = refl
read_event-c_event (exited code ExitReason.natural_exit) = refl
read_event-c_event (exited code ExitReason.timed_out) = refl
read_event-c_event (exited code ExitReason.cancel_requested) = refl
read_event-c_event (stdout_chunk seq bytes) =
    ap (Option.map (stdout_chunk seq)) (read_bytes-length bytes)
read_event-c_event (stderr_chunk seq bytes) =
    ap (Option.map (stderr_chunk seq)) (read_bytes-length bytes)
