-- ===== src/Os/Unix/Signals.antt =====
-- How long the polling loop of `kill_escalating` in src/os/unix.rs lasts.
use aer_core.Base.{ℕ, ◌+◌, ◌≤◌, length}
use aer_core.Os.Unix.{System, World, Poll, dead, expired, out_of_fuel}
use aer_core.Os.Unix.Escalation.{ClockLaws}

module _ {W : Type 0} (os : System W) (pgid : ℕ) (clock : W → ℕ) (laws : ClockLaws os clock) where
  open laws use {now_reads}

  -- The loop has ended after at most `n` signals, and if it expired, not before the deadline.
  abbrev pub EndedWithin : (n deadline : ℕ) → World W → Poll W → Type 0
  EndedWithin n deadline w (dead u) = length u.sent ≤ length w.sent + n
  EndedWithin n deadline w (expired u) =
      (length u.sent ≤ length w.sent + n) × (deadline ≤ clock u.state)
  EndedWithin n deadline w out_of_fuel = ⊥
