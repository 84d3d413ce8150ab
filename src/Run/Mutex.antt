-- ===== src/Run/Mutex.antt =====
-- The mutex of a cancel handle (src/task.rs): its holder, and the kill handle that it guards.
pub mod Held
pub mod Invariant
pub mod Release
use aer_core.Base.{ℕ, ◌≡◌, Option, none, some, Result, ok, err}
use aer_core.Error.{AerError}
use aer_core.Run.System.{Outcome, returned, Pc, CancelPc, System}

-- A call of `cancel` in its critical section holds the mutex.
abbrev pub Owns : {K : Type 0} → ℕ → CancelPc K → Option ℕ → Type 0
Owns i CancelPc.uncalled owner = Unit
Owns i CancelPc.locking owner = Unit
Owns i CancelPc.holding owner = owner ≡ some i
Owns i (CancelPc.marking k) owner = owner ≡ some i
Owns i (CancelPc.killing k) owner = owner ≡ some i
Owns i CancelPc.back owner = Unit

-- A call of `cancel` kills what the handle still holds.
abbrev pub Aims : {K : Type 0} → CancelPc K → Option K → Type 0
Aims (CancelPc.marking k) kill = kill ≡ some k
Aims (CancelPc.killing k) kill = kill ≡ some k
Aims _ kill = Unit

-- What the handle holds when `run_impl` has ended.
abbrev pub Left : {K E : Type 0} → Outcome E → Option K → Type 0
Left (returned (ok u)) kill = kill ≡ none
Left (returned (err AerError.timed_out)) kill = kill ≡ none
Left (returned (err AerError.cancelled)) kill = kill ≡ none
Left {K} (returned (err (AerError.wait_failed e))) kill = (k : K) × (kill ≡ some k)
Left r kill = Unit

-- What the handle holds at each place of `run_impl`.
abbrev pub Slot : {K E : Type 0} → Pc K E → Option K → Type 0
Slot Pc.spawning kill = Unit
Slot (Pc.entering h) kill = Unit
Slot (Pc.announcing h) kill = Unit
Slot (Pc.wiring h) kill = Unit
Slot (Pc.stopping code) kill = kill ≡ none
Slot (Pc.reading_timed_out code) kill = kill ≡ none
Slot (Pc.reading_fired code out) kill = kill ≡ none
Slot (Pc.exiting code out stopped) kill = kill ≡ none
Slot (Pc.reporting code out stopped) kill = kill ≡ none
Slot (Pc.finishing out stopped) kill = kill ≡ none
Slot (Pc.dropping k r) kill = Left r kill
Slot (Pc.reaping k r) kill = Left r kill
Slot (Pc.ended r) kill = Left r kill
Slot (Pc.checking_cancelled h) kill = kill ≡ some h.kill
Slot (Pc.checking_fired h) kill = kill ≡ some h.kill
Slot (Pc.probing h) kill = kill ≡ some h.kill
Slot (Pc.marking h) kill = kill ≡ some h.kill
Slot (Pc.killing h) kill = kill ≡ some h.kill
Slot (Pc.watching h) kill = kill ≡ some h.kill
Slot (Pc.choosing h) kill = kill ≡ some h.kill
Slot (Pc.pumping h) kill = kill ≡ some h.kill
Slot (Pc.settling h) kill = kill ≡ some h.kill
Slot (Pc.waiting h) kill = kill ≡ some h.kill
Slot (Pc.disarming h code) kill = kill ≡ some h.kill
Slot (Pc.clearing h code) kill = kill ≡ some h.kill

pub record Inv {K E : Type 0} (s : System K E) : Type 0 where
  pub owns : (i : ℕ) → Owns i (s.cancellers i) s.owner
  pub aims : (i : ℕ) → Aims (s.cancellers i) s.cancel.kill
  pub slot : Slot s.runner s.cancel.kill
