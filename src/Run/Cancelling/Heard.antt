-- ===== src/Run/Cancelling/Heard.antt =====
-- No cancel is lost between `cancel` and the wiring of the handle in `run_impl` (src/task.rs).
use aer_core.Base.{
  ℕ, String, Bool, true, false, ◌≡◌, ◌≢◌, refl, sym, subst, ◌∙◌, ◌⊎◌, inl, inr, Option, none, arith,
  Bool-cases,
}
use aer_core.Task.{Task, CancelHandle, is_cancelled}
use aer_core.Run.System.{Pc, MonitorPc, CancelPc, System, Answer, init}
use aer_core.Run.Runner.{run_from, runner_step}
use aer_core.Run.Monitor.{watch_from, monitor_step}
use aer_core.Run.Canceller.{cancel_from, cancel_step}
use aer_core.Run.Schedule.{Turn, turn_step, Reach, here, next}
use aer_core.Run.Frame.{cancel_step-Frame}
use aer_core.Run.Mutex.{Slot, Inv}
use aer_core.Run.Mutex.Invariant.{Reach-Inv}
use aer_core.Run.Cancelling.{FoundDead, is_busy, is_killing}

-- The process is wired to the handle and the runner's own test for a cancel is over.
abbrev pub is_listening : {K E : Type 0} → Pc K E → Bool
is_listening (Pc.watching h) = true
is_listening (Pc.choosing h) = true
is_listening (Pc.pumping h) = true
is_listening (Pc.settling h) = true
is_listening (Pc.waiting h) = true
is_listening (Pc.disarming h code) = true
is_listening (Pc.clearing h code) = true
is_listening _ = false

-- A cancel that was requested has fired its kill, or found the tree dead, or is still at work.
abbrev Served : {K E : Type 0} → System K E → Type 0
Served s =
    s.cancel.cancelled ≡ true
    → (s.cancel.kill_fired ≡ true)
      ⊎ FoundDead s.calls
      ⊎ ((i : ℕ) × (is_busy (s.cancellers i) ≡ true))

-- What the runner knows of the flags while it tests for a cancel, and what it has made sure of after.
abbrev Heard : {K E : Type 0} → Pc K E → System K E → Type 0
Heard (Pc.killing h) s = s.cancel.kill_fired ≡ true
Heard pc s = is_listening pc ≡ true → Served s

Heard-mono :
    {K E : Type 0} (pc : Pc K E) (s s' : System K E)
    → (s.cancel.kill_fired ≡ true → s'.cancel.kill_fired ≡ true)
    → (is_listening pc ≡ true → Served s → Served s')
    → Heard pc s
    → Heard pc s'
Heard-mono (Pc.killing h) s s' fired served f = fired f
Heard-mono _ s s' fired served f = λ l. served l (f l)

listening-Heard :
    {K E : Type 0} (pc : Pc K E) (s : System K E) → is_listening pc ≡ true → Heard pc s → Served s
listening-Heard (Pc.killing h) s l f = cc
listening-Heard _ s l f = f l

pub true≢false : true ≢ false
true≢false e = cc

listening-Slot :
    {K E : Type 0} (pc : Pc K E) (kill : Option K)
    → is_listening pc ≡ true
    → Slot pc kill
    → kill ≢ none
listening-Slot Pc.spawning kill l h e = cc
listening-Slot _ kill l h e = ground arith

module _ {K E : Type 0} (other : String → E) (t : Task) where
  run_from-Heard :
      (a : Answer K E) (pc : Pc K E) (s : System K E)
      → s.runner ≡ pc
      → Heard pc s
      → let s' = run_from other t true a pc s in Heard s'.runner s'
  unfolding run_from
  run_from-Heard a Pc.spawning s e f = ground arith
  run_from-Heard a (Pc.pumping h) s e f = ground arith
  run_from-Heard a _ s e f = ground arith

  module _ (a : Answer K E) (j : ℕ) (s : System K E) where
    pub cancel_from-kill_fired :
        (pc : CancelPc K)
        → s.cancel.kill_fired ≡ true
        → (cancel_from a j pc s).cancel.kill_fired ≡ true
    unfolding cancel_from
    cancel_from-kill_fired CancelPc.uncalled h = ground arith
    cancel_from-kill_fired _ h = ground arith

    cancel_from-Served :
        (pc : CancelPc K)
        → s.cancellers j ≡ pc
        → s.cancel.kill ≢ none
        → s.cancel.poisoned ≡ false
        → (is_killing pc ≡ true → s.cancel.kill_fired ≡ true)
        → Served s
        → Served (cancel_from a j pc s)
    unfolding cancel_from
    cancel_from-Served CancelPc.uncalled e k p m f = elim (Bool-cases s.cancel.cancelled) [
      | inl old ↦ ground arith
      | inr new ↦ rw new (λ _. inr (inr (j, ground arith)))
    ]
    cancel_from-Served CancelPc.locking e k p m f = ground arith
    cancel_from-Served CancelPc.holding e k p m f = ground arith
    cancel_from-Served (CancelPc.marking kill) e k p m f = λ _. inl refl
    cancel_from-Served (CancelPc.killing kill) e k p m f = λ _. inl (m refl)
    cancel_from-Served CancelPc.back e k p m f = f

    cancel_from-killing :
        (pc : CancelPc K)
        → (i : ℕ) → (is_killing (s.cancellers i) ≡ true → s.cancel.kill_fired ≡ true)
        → let s' = cancel_from a j pc s in
          is_killing (s'.cancellers i) ≡ true → s'.cancel.kill_fired ≡ true
    unfolding cancel_from
    cancel_from-killing CancelPc.uncalled i m = ground arith
    cancel_from-killing _ i m = ground arith

    cancel_from-poisoned :
        (pc : CancelPc K) → (cancel_from a j pc s).cancel.poisoned ≡ s.cancel.poisoned
    unfolding cancel_from
    cancel_from-poisoned CancelPc.uncalled = ground arith
    cancel_from-poisoned _ = ground arith

  -- What holds from the start of a run whose mutex is not poisoned.
  record Attentive (s : System K E) : Type 0 where
    mutex : Inv s
    healthy : s.cancel.poisoned ≡ false
    killing : (i : ℕ) → is_killing (s.cancellers i) ≡ true → s.cancel.kill_fired ≡ true
    heard : Heard s.runner s

  run_from-flags :
      (a : Answer K E) (pc : Pc K E) (s : System K E)
      → let s' = run_from other t true a pc s in
        (s'.cancel.poisoned ≡ s.cancel.poisoned)
        × (s.cancel.kill_fired ≡ true → s'.cancel.kill_fired ≡ true)
        × (s'.cancellers ≡ s.cancellers)
  unfolding run_from
  run_from-flags a Pc.spawning s = ground arith
  run_from-flags a (Pc.pumping h) s = ground arith
  run_from-flags a _ s = ground arith

  runner_step-Attentive :
      (a : Answer K E) (s : System K E)
      → Attentive s
      → Inv (runner_step other t true a s)
      → Attentive (runner_step other t true a s)
  unfolding runner_step
  runner_step-Attentive a s v mutex =
      let (poison, fired, calls) = run_from-flags a s.runner s in
      record {
        mutex = mutex;
        healthy = poison ∙ v.healthy;
        killing = rw calls (λ i k. fired (v.killing i k));
        heard = run_from-Heard a s.runner s refl v.heard;
      }

  watch_from-Attentive :
      (a : Answer K E) (pc : MonitorPc K) (s : System K E)
      → Attentive s
      → Inv (watch_from a pc s)
      → Attentive (watch_from a pc s)
  unfolding watch_from
  watch_from-Attentive a MonitorPc.unborn s v mutex = v
  watch_from-Attentive a _ s v mutex = record {
    mutex = mutex;
    healthy = v.healthy;
    killing = v.killing;
    heard = Heard-mono s.runner s _ (λ f. f) (λ l served. served) v.heard;
  }

  cancel_step-Attentive :
      (a : Answer K E) (j : ℕ) (s : System K E)
      → Attentive s
      → Inv (cancel_step a j s)
      → Attentive (cancel_step a j s)
  unfolding cancel_step
  cancel_step-Attentive a j s v mutex = record {
    mutex = mutex;
    healthy = cancel_from-poisoned a j s (s.cancellers j) ∙ v.healthy;
    killing = λ i. cancel_from-killing a j s (s.cancellers j) i (v.killing i);
    heard =
        subst (λ pc. Heard pc (cancel_step a j s)) (sym (cancel_step-Frame s a j).runner)
          (Heard-mono s.runner s _ (cancel_from-kill_fired a j s (s.cancellers j))
            (λ l served.
              cancel_from-Served a j s (s.cancellers j) refl
                (listening-Slot s.runner s.cancel.kill l v.mutex.slot) v.healthy (v.killing j)
                served)
            v.heard);
  }

  turn_step-Attentive :
      (turn : Turn) (a : Answer K E) (s : System K E)
      → Attentive s
      → Inv (turn_step other t true turn a s)
      → Attentive (turn_step other t true turn a s)
  unfolding turn_step monitor_step
  turn_step-Attentive Turn.runner a s v mutex = runner_step-Attentive a s v mutex
  turn_step-Attentive Turn.monitor a s v mutex = watch_from-Attentive a s.monitor s v mutex
  turn_step-Attentive (Turn.canceller j) a s v mutex = cancel_step-Attentive a j s v mutex

  module _ (h : CancelHandle K) (healthy : h.poisoned ≡ false) where
    Reach-Attentive : {s : System K E} → Reach other t true (init E h) s → Attentive s
    unfolding init
    Reach-Attentive here = record {
      mutex = Reach-Inv other t h here;
      healthy = healthy;
      killing = λ i e. cc;
      heard = λ l. cc;
    }
    Reach-Attentive (next {u} r turn a) =
        turn_step-Attentive turn a u (Reach-Attentive r) (Reach-Inv other t h (next r turn a))

    -- A cancel that was requested is fired, or has found a tree dead, or is still at work.
    pub listening-Served :
        (s : System K E)
        → Reach other t true (init E h) s
        → is_listening s.runner ≡ true
        → is_cancelled s.cancel ≡ true
        → (s.cancel.kill_fired ≡ true)
          ⊎ FoundDead s.calls
          ⊎ ((i : ℕ) × (is_busy (s.cancellers i) ≡ true))
    unfolding is_cancelled
    listening-Served s r l c = listening-Heard s.runner s l (Reach-Attentive r).heard c
