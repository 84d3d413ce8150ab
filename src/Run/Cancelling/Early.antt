-- ===== src/Run/Cancelling/Early.antt =====
-- A cancel that is requested before the run starts (src/task.rs, `run_impl` and `cancel`).
use aer_core.Base.{
  ℕ, String, Bool, true, false, ◌≡◌, refl, sym, subst, ◌∙◌, ◌⊎◌, inl, inr, List, ok, arith,
}
use aer_core.Task.{Task, CancelHandle, is_cancelled}
use aer_core.Run.System.{returned, Pc, MonitorPc, CancelPc, Caller, Call, System, Answer, init}
use aer_core.Run.Runner.{run_from, runner_step}
use aer_core.Run.Monitor.{watch_from, monitor_step}
use aer_core.Run.Canceller.{cancel_from, cancel_step}
use aer_core.Run.Schedule.{Turn, turn_step, Reach, here, next}
use aer_core.Run.Frame.{Grown, same, probed, killed, cancel_step-Frame}
use aer_core.Run.Cancelling.{FoundDead}
use aer_core.Run.Cancelling.Heard.{true≢false, cancel_from-kill_fired}
use aer_core.Run.Cancelling.Verdict.{ended-Settled}

-- The run has made its own test for a cancel, or ends before it.
abbrev is_tested : {K E : Type 0} → Pc K E → Bool
is_tested Pc.spawning = false
is_tested (Pc.entering h) = false
is_tested (Pc.announcing h) = false
is_tested (Pc.wiring h) = false
is_tested (Pc.checking_cancelled h) = false
is_tested (Pc.checking_fired h) = false
is_tested (Pc.probing h) = false
is_tested (Pc.marking h) = false
is_tested (Pc.dropping k (returned (ok u))) = true
is_tested (Pc.dropping k r) = false
is_tested (Pc.reaping k (returned (ok u))) = true
is_tested (Pc.reaping k r) = false
is_tested (Pc.ended (returned (ok u))) = true
is_tested (Pc.ended r) = false
is_tested _ = true

abbrev Answered : {K E : Type 0} → Pc K E → System K E → Type 0
Answered (Pc.killing h) s = s.cancel.kill_fired ≡ true
Answered pc s = is_tested pc ≡ true → (s.cancel.kill_fired ≡ true) ⊎ FoundDead s.calls

Answered-mono :
    {K E : Type 0} (pc : Pc K E) (s s' : System K E)
    → (s.cancel.kill_fired ≡ true → s'.cancel.kill_fired ≡ true)
    → (FoundDead s.calls → FoundDead s'.calls)
    → Answered pc s
    → Answered pc s'
Answered-mono (Pc.killing h) s s' fired dead f = fired f
Answered-mono _ s s' fired dead f =
    λ l. elim (f l) [ inl old ↦ inl (fired old) | inr found ↦ inr (dead found) ]

FoundDead-Grown :
    {K : Type 0} {before after : List (Call K)}
    → Grown before after
    → FoundDead before
    → FoundDead after
FoundDead-Grown same d = d
FoundDead-Grown (probed Caller.runner k true) d = d
FoundDead-Grown (probed Caller.runner k false) d = tt
FoundDead-Grown (probed (Caller.canceller i) k true) d = d
FoundDead-Grown (probed (Caller.canceller i) k false) d = tt
FoundDead-Grown (probed _ k alive) d = d
FoundDead-Grown (killed who k grace foreign) d = d

module _ {K E : Type 0} (other : String → E) (t : Task) where
  run_from-Answered :
      (a : Answer K E) (pc : Pc K E) (s : System K E)
      → s.runner ≡ pc
      → s.cancel.cancelled ≡ true
      → Answered pc s
      → let s' = run_from other t true a pc s in Answered s'.runner s'
  unfolding run_from
  run_from-Answered a Pc.spawning s e c f = ground arith
  run_from-Answered a (Pc.pumping h) s e c f = ground arith
  run_from-Answered a _ s e c f = ground arith

  run_from-cancelled :
      (a : Answer K E) (pc : Pc K E) (s : System K E)
      → (run_from other t true a pc s).cancel.cancelled ≡ s.cancel.cancelled
  unfolding run_from
  run_from-cancelled a Pc.spawning s = ground arith
  run_from-cancelled a (Pc.pumping h) s = ground arith
  run_from-cancelled a _ s = ground arith

  cancel_from-cancelled :
      (a : Answer K E) (j : ℕ) (pc : CancelPc K) (s : System K E)
      → s.cancel.cancelled ≡ true
      → (cancel_from a j pc s).cancel.cancelled ≡ true
  unfolding cancel_from
  cancel_from-cancelled a j CancelPc.uncalled s h = ground arith
  cancel_from-cancelled a j _ s h = ground arith

  record Early (s : System K E) : Type 0 where
    cancelled : s.cancel.cancelled ≡ true
    answered : Answered s.runner s

  watch_from-Early :
      (a : Answer K E) (pc : MonitorPc K) (s : System K E) → Early s → Early (watch_from a pc s)
  unfolding watch_from
  watch_from-Early a MonitorPc.unborn s v = v
  watch_from-Early a _ s v = record {
    cancelled = v.cancelled;
    answered = Answered-mono s.runner s _ (λ f. f) (λ d. d) v.answered;
  }

  turn_step-Early :
      (turn : Turn) (a : Answer K E) (s : System K E)
      → Early s
      → Early (turn_step other t true turn a s)
  unfolding turn_step runner_step monitor_step cancel_step
  turn_step-Early Turn.runner a s v = record {
    cancelled = run_from-cancelled a s.runner s ∙ v.cancelled;
    answered = run_from-Answered a s.runner s refl v.cancelled v.answered;
  }
  turn_step-Early Turn.monitor a s v = watch_from-Early a s.monitor s v
  turn_step-Early (Turn.canceller j) a s v =
      let f = cancel_step-Frame s a j in
      record {
        cancelled = cancel_from-cancelled a j (s.cancellers j) s v.cancelled;
        answered =
            subst (λ pc. Answered pc (cancel_step a j s)) (sym f.runner)
              (Answered-mono s.runner s _ (cancel_from-kill_fired other t a j s (s.cancellers j))
                (FoundDead-Grown f.calls) v.answered);
      }

  module _ (h : CancelHandle K) (requested : is_cancelled h ≡ true) where
    Reach-Early : {s : System K E} → Reach other t true (init E h) s → Early s
    unfolding init is_cancelled
    Reach-Early here = record { cancelled = requested; answered = λ l. cc }
    Reach-Early (next {u} r turn a) = turn_step-Early turn a u (Reach-Early r)

    -- A cancel that was requested before the run is not ignored: such a run returns `Ok` only if a
    -- probe of the process tree, made for the cancel, found it already dead.
    pub early_cancel_heard :
        (s : System K E)
        → Reach other t true (init E h) s
        → s.runner ≡ Pc.ended (returned (ok tt))
        → FoundDead s.calls
    early_cancel_heard s r e = elim (subst (λ pc. Answered pc s) e (Reach-Early r).answered refl) [
      | inl fired ↦ absurd (true≢false (sym fired ∙ (ended-Settled other t h s (ok tt) r e).0))
      | inr dead ↦ dead
    ]
