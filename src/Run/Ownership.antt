-- ===== src/Run/Ownership.antt =====
-- What it means that a run of src/task.rs touches no process but the one that it has started.
pub mod Invariant
use aer_core.Base.{ℕ, String, Bool, ◌≡◌, refl, Option, none, some, List, [], ◌∷◌, ok, err, arith}
use aer_core.Task.{Task, CancelHandle}
use aer_core.Run.System.{
  Pc, MonitorPc, CancelPc, Call, spawned, waited, tree_alive, kill_escalating, reap_abandoned,
  KillOnDropGuard, System, Answer, init,
}
use aer_core.Run.Runner.{run_from, runner_step}
use aer_core.Run.Monitor.{watch_from, monitor_step}
use aer_core.Run.Canceller.{cancel_from, cancel_step}
use aer_core.Run.Schedule.{Turn, turn_step, Reach, here, next}
use aer_core.Run.Frame.{Grown, same, probed, killed, Frame, cancel_step-Frame, monitor_step-Frame}
use aer_core.Run.Cleanup.{Unspawned, Spawned}
use aer_core.Run.Cleanup.Invariant.{Guarded, Reach-Inv}

module _ {K : Type 0} (k : K) where
  -- Every call is about `k`.
  abbrev pub OnlyOn : List (Call K) → Type 0
  OnlyOn [] = Unit
  OnlyOn (spawned k' ∷ l) = (k' ≡ k) × OnlyOn l
  OnlyOn (waited k' code ∷ l) = (k' ≡ k) × OnlyOn l
  OnlyOn (tree_alive who k' alive ∷ l) = (k' ≡ k) × OnlyOn l
  OnlyOn (kill_escalating who k' grace ∷ l) = (k' ≡ k) × OnlyOn l
  OnlyOn (reap_abandoned k' ∷ l) = (k' ≡ k) × OnlyOn l

  -- What was spawned, if anything was, is `k`.
  abbrev pub Starts : List (Call K) → Type 0
  Starts [] = Unit
  Starts (spawned k' ∷ l) = k' ≡ k
  Starts (waited k' code ∷ l) = Starts l
  Starts (tree_alive who k' alive ∷ l) = Starts l
  Starts (kill_escalating who k' grace ∷ l) = Starts l
  Starts (reap_abandoned k' ∷ l) = Starts l

  pub Unspawned-Starts : (l : List (Call K)) → Unspawned l → Starts l
  Unspawned-Starts [] h = tt
  Unspawned-Starts (spawned k' ∷ l) h = absurd h
  Unspawned-Starts (waited k' code ∷ l) h = Unspawned-Starts l h
  Unspawned-Starts (tree_alive who k' alive ∷ l) h = Unspawned-Starts l h
  Unspawned-Starts (kill_escalating who k' grace ∷ l) h = Unspawned-Starts l h
  Unspawned-Starts (reap_abandoned k' ∷ l) h = Unspawned-Starts l h

  pub Spawned-Starts : (l : List (Call K)) → Spawned k l → Starts l
  Spawned-Starts [] h = tt
  Spawned-Starts (spawned k' ∷ l) h = h
  Spawned-Starts (waited k' code ∷ l) h = Spawned-Starts l h
  Spawned-Starts (tree_alive who k' alive ∷ l) h = Spawned-Starts l h
  Spawned-Starts (kill_escalating who k' grace ∷ l) h = Spawned-Starts l h
  Spawned-Starts (reap_abandoned k' ∷ l) h = Spawned-Starts l h

  -- Each thread, the guard and the cancel handle know `k` at most.
  abbrev pub PcOn : {E : Type 0} → Pc K E → Type 0
  PcOn (Pc.entering h) = h.kill ≡ k
  PcOn (Pc.announcing h) = h.kill ≡ k
  PcOn (Pc.wiring h) = h.kill ≡ k
  PcOn (Pc.checking_cancelled h) = h.kill ≡ k
  PcOn (Pc.checking_fired h) = h.kill ≡ k
  PcOn (Pc.probing h) = h.kill ≡ k
  PcOn (Pc.marking h) = h.kill ≡ k
  PcOn (Pc.killing h) = h.kill ≡ k
  PcOn (Pc.watching h) = h.kill ≡ k
  PcOn (Pc.choosing h) = h.kill ≡ k
  PcOn (Pc.pumping h) = h.kill ≡ k
  PcOn (Pc.settling h) = h.kill ≡ k
  PcOn (Pc.waiting h) = h.kill ≡ k
  PcOn (Pc.dropping k' r) = k' ≡ k
  PcOn (Pc.reaping k' r) = k' ≡ k
  PcOn _ = Unit

  abbrev pub GuardOn : Option (KillOnDropGuard K) → Type 0
  GuardOn none = Unit
  GuardOn (some g) = g.kill ≡ k

  abbrev pub KillOn : Option K → Type 0
  KillOn none = Unit
  KillOn (some k') = k' ≡ k

  abbrev pub MonitorOn : MonitorPc K → Type 0
  MonitorOn MonitorPc.unborn = Unit
  MonitorOn (MonitorPc.sleeping k') = k' ≡ k
  MonitorOn (MonitorPc.expired k') = k' ≡ k
  MonitorOn (MonitorPc.marking k') = k' ≡ k
  MonitorOn (MonitorPc.killing k') = k' ≡ k
  MonitorOn MonitorPc.over = Unit

  abbrev pub CancelOn : CancelPc K → Type 0
  CancelOn (CancelPc.marking k') = k' ≡ k
  CancelOn (CancelPc.killing k') = k' ≡ k
  CancelOn _ = Unit

  pub record On {E : Type 0} (s : System K E) : Type 0 where
    pub runner : PcOn s.runner
    pub guard : GuardOn s.guard
    pub kill : KillOn s.cancel.kill
    pub monitor : MonitorOn s.monitor
    pub cancellers : (i : ℕ) → CancelOn (s.cancellers i)
    pub calls : OnlyOn s.calls
