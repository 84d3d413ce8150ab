-- ===== src/Run/Mutex/Invariant.antt =====
-- Every step of a run keeps the invariant of the cancel handle's mutex (src/task.rs).
use aer_core.Run.Frame.{cancel_step-Frame}
use aer_core.Run.Mutex.{Owns, Aims, Slot, Inv}
use aer_core.Base.{ℕ, String, true, ◌≡◌, ◌≢◌, refl, ◌∙◌, subst, Option, none, arith}
use aer_core.Task.{Task, CancelHandle}
use aer_core.Run.System.{Pc, MonitorPc, CancelPc, System, Answer, init}
use aer_core.Run.Runner.{run_from, runner_step}
use aer_core.Run.Monitor.{watch_from, monitor_step}
use aer_core.Run.Canceller.{cancel_from, cancel_step}
use aer_core.Run.Schedule.{Turn, turn_step, Reach, here, next}

module _ {K E : Type 0} (other : String → E) (t : Task) (a : Answer K E) where
  -- The runner with a cancel handle.
  abbrev run : Pc K E → System K E → System K E
  run = run_from other t true a

  run_from-owner :
      (pc : Pc K E) (s : System K E)
      → ((run pc s).owner ≡ s.owner) × ((run pc s).cancellers ≡ s.cancellers)
  unfolding run_from
  run_from-owner Pc.spawning s = ground arith
  run_from-owner (Pc.pumping h) s = ground arith
  run_from-owner _ s = ground arith

  -- The slot changes only while no call of `cancel` holds the mutex.
  run_from-kill :
      (pc : Pc K E) (s : System K E) → s.owner ≢ none → (run pc s).cancel.kill ≡ s.cancel.kill
  unfolding run_from
  run_from-kill Pc.spawning s h = ground arith
  run_from-kill (Pc.pumping x) s h = ground arith
  run_from-kill _ s h = ground arith

  run_from-Slot :
      (pc : Pc K E) (s : System K E)
      → s.runner ≡ pc
      → Slot pc s.cancel.kill
      → Slot (run pc s).runner (run pc s).cancel.kill
  unfolding run_from
  run_from-Slot Pc.spawning s e h = ground arith
  run_from-Slot (Pc.pumping x) s e h = ground arith
  run_from-Slot _ s e h = ground arith

kept-Aims :
    {K : Type 0} (i : ℕ) {owner : Option ℕ} {kill kill' : Option K} (pc : CancelPc K)
    → (owner ≢ none → kill' ≡ kill)
    → Owns i pc owner
    → Aims pc kill
    → Aims pc kill'
kept-Aims i (CancelPc.marking k) same o h = same (λ e. cc) ∙ h
kept-Aims i (CancelPc.killing k) same o h = same (λ e. cc) ∙ h
kept-Aims i _ same o h = tt

module _ {K E : Type 0} (other : String → E) (t : Task) where
  run_from-Inv :
      (a : Answer K E) (pc : Pc K E) (s : System K E)
      → s.runner ≡ pc
      → Inv s
      → Inv (run_from other t true a pc s)
  run_from-Inv a pc s e v =
      let (o, c) = run_from-owner other t a pc s in
      record {
        owns = rw (o, c) v.owns;
        aims = rw c (λ i.
            kept-Aims i (s.cancellers i) (run_from-kill other t a pc s) (v.owns i) (v.aims i));
        slot = run_from-Slot other t a pc s e (subst (λ at. Slot at s.cancel.kill) e v.slot);
      }

  watch_from-Inv :
      (a : Answer K E) (pc : MonitorPc K) (s : System K E) → Inv s → Inv (watch_from a pc s)
  unfolding watch_from
  watch_from-Inv a MonitorPc.unborn s v = v
  watch_from-Inv a _ s v = record { owns = v.owns; aims = v.aims; slot = v.slot }

  module _ (a : Answer K E) (j : ℕ) (s : System K E) (v : Inv s) where
    cancel_from-Owns :
        (pc : CancelPc K)
        → s.cancellers j ≡ pc
        → (i : ℕ) → let s' = cancel_from a j pc s in Owns i (s'.cancellers i) s'.owner
    unfolding cancel_from
    cancel_from-Owns CancelPc.uncalled e i = ground (arith, v.owns i, v.owns j)
    cancel_from-Owns _ e i = ground (arith, v.owns i, v.owns j)

    cancel_from-Aims :
        (pc : CancelPc K)
        → s.cancellers j ≡ pc
        → (i : ℕ) → let s' = cancel_from a j pc s in Aims (s'.cancellers i) s'.cancel.kill
    unfolding cancel_from
    cancel_from-Aims CancelPc.uncalled e i = ground (arith, v.aims i, v.aims j)
    cancel_from-Aims _ e i = ground (arith, v.aims i, v.aims j)

    cancel_from-kill : (pc : CancelPc K) → (cancel_from a j pc s).cancel.kill ≡ s.cancel.kill
    unfolding cancel_from
    cancel_from-kill CancelPc.uncalled = ground arith
    cancel_from-kill _ = ground arith

    cancel_step-Inv : Inv (cancel_step a j s)
    unfolding cancel_step
    cancel_step-Inv = record {
      owns = cancel_from-Owns (s.cancellers j) refl;
      aims = cancel_from-Aims (s.cancellers j) refl;
      slot = rw ((cancel_step-Frame s a j).runner, cancel_from-kill (s.cancellers j)) v.slot;
    }

  turn_step-Inv :
      (turn : Turn) (a : Answer K E) (s : System K E)
      → Inv s
      → Inv (turn_step other t true turn a s)
  unfolding turn_step runner_step monitor_step
  turn_step-Inv Turn.runner a s v = run_from-Inv a s.runner s refl v
  turn_step-Inv Turn.monitor a s v = watch_from-Inv a s.monitor s v
  turn_step-Inv (Turn.canceller i) a s v = cancel_step-Inv a i s v

  pub Reach-Inv : (h : CancelHandle K) {s : System K E} → Reach other t true (init E h) s → Inv s
  unfolding init
  Reach-Inv h here = record { owns = λ i. tt; aims = λ i. tt; slot = tt }
  Reach-Inv h (next {u} r turn a) = turn_step-Inv turn a u (Reach-Inv h r)
