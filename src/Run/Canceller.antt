-- ===== src/Run/Canceller.antt =====
-- `CancelHandle::cancel` of src/task.rs. Each call of it is a thread of its own, numbered `i`.
use aer_core.Base.{ℕ, true, none, some, ◌∷◌, update, if◌then◌else◌}
use aer_core.Task.{kill_grace}
use aer_core.Run.System.{CancelPc, Caller, Call, System, Answer}

module _ {K E : Type 0} (a : Answer K E) (i : ℕ) where
  abbrev pub move : System K E → CancelPc K → System K E
  move s pc = record s { cancellers = update s.cancellers i pc }

  -- The mutex guard is dropped where the call returns.
  abbrev pub unlock : System K E → System K E
  unlock s = record s { owner = none; cancellers = update s.cancellers i CancelPc.back }

  unfoldable pub cancel_from : CancelPc K → System K E → System K E
  -- `cancelled.swap(true)`
  cancel_from CancelPc.uncalled s =
      if s.cancel.cancelled
      then move s CancelPc.back
      else move (record s { cancel = record (s.cancel) { cancelled = true } }) CancelPc.locking
  -- `kill.lock()`, which waits for the holder and gives up if the mutex is poisoned
  cancel_from CancelPc.locking s = elim s.owner [
    | some _ ↦ s
    | none ↦
        if s.cancel.poisoned
        then move s CancelPc.back
        else move (record s { owner = some i }) CancelPc.holding
  ]
  cancel_from CancelPc.holding s = elim s.cancel.kill [
    | none ↦ unlock s
    | some k ↦
        let s' = record s { calls = Call.tree_alive (Caller.canceller i) k a.alive ∷ s.calls } in
        if a.alive then move s' (CancelPc.marking k) else unlock s'
  ]
  cancel_from (CancelPc.marking k) s =
      move (record s { cancel = record (s.cancel) { kill_fired = true } }) (CancelPc.killing k)
  cancel_from (CancelPc.killing k) s =
      unlock (record s { calls = Call.kill_escalating (Caller.canceller i) k kill_grace ∷ s.calls })
  cancel_from CancelPc.back s = s

  unfoldable pub cancel_step : System K E → System K E
  unfolding cancel_from
  cancel_step s = cancel_from (s.cancellers i) s
