-- ===== src/Run/Mutex/Release.antt =====
-- The mutex of a cancel handle is given back (src/task.rs).
use aer_core.Base.{
  ◌==◌, ◌+◌, List, if◌then◌else◌, Bool-cases, ◌≢◌, ℕ, suc, ◌≤◌, String, Bool, true, false, ◌≡◌,
  refl, sym, subst, ◌⊎◌, inl, inr, none, some, [], ◌∷◌, arith,
}
use aer_core.Task.{Task, CancelHandle}
use aer_core.Run.System.{Pc, MonitorPc, CancelPc, System, Answer, init}
use aer_core.Run.Runner.{run_from, runner_step}
use aer_core.Run.Monitor.{watch_from, monitor_step}
use aer_core.Run.Canceller.{cancel_from, cancel_step}
use aer_core.Run.Schedule.{Turn, turn_step, execute, Reach, execute-Reach}
use aer_core.Run.Mutex.Held.{is_inside, Reach-Held}

-- The steps that a call of `cancel` has to the end of its critical section.
abbrev steps_inside : {K : Type 0} → CancelPc K → ℕ
steps_inside CancelPc.holding = 3
steps_inside (CancelPc.marking k) = 2
steps_inside (CancelPc.killing k) = 1
steps_inside _ = 0

-- Call `i` has returned, or is inside and has at most `n` steps to do so.
abbrev Within : {K E : Type 0} → ℕ → ℕ → System K E → Type 0
Within i n s =
    (s.cancellers i ≡ CancelPc.back)
    ⊎ ((is_inside (s.cancellers i) ≡ true) × (steps_inside (s.cancellers i) ≤ n))

three_left : {K : Type 0} (pc : CancelPc K) → steps_inside pc ≤ 3
three_left CancelPc.uncalled = omega arith
three_left _ = omega arith

abbrev own_turn : ℕ → Turn → ℕ
own_turn i (Turn.canceller j) = if j == i then 1 else 0
own_turn i turn = 0

-- The turns of call `i` in a schedule.
unfoldable pub own_turns : {A : Type 0} → ℕ → List (Turn × A) → ℕ
own_turns i [] = 0
own_turns i ((turn, a) ∷ schedule) = own_turn i turn + own_turns i schedule

Within-le : {K E : Type 0} (i m n : ℕ) (s : System K E) → m ≤ n → Within i m s → Within i n s
Within-le i m n s le h = ground arith

no_steps : {K : Type 0} (pc : CancelPc K) → is_inside pc ≡ true → steps_inside pc ≤ 0 → ⊥
no_steps CancelPc.uncalled e h = cc
no_steps _ e h = ground arith

none_left : {K E : Type 0} (i : ℕ) (s : System K E) → Within i 0 s → s.cancellers i ≡ CancelPc.back
none_left i s (inl back) = back
none_left i s (inr (inside, h)) = absurd (no_steps (s.cancellers i) inside h)

module _ {K E : Type 0} (other : String → E) (t : Task) (with_cancel : Bool) where
  run_from-cancellers :
      (a : Answer K E) (pc : Pc K E) (s : System K E)
      → (run_from other t with_cancel a pc s).cancellers ≡ s.cancellers
  unfolding run_from
  run_from-cancellers a Pc.spawning s = ground arith
  run_from-cancellers a (Pc.pumping x) s = ground arith
  run_from-cancellers a _ s = ground arith

  watch_from-cancellers :
      (a : Answer K E) (pc : MonitorPc K) (s : System K E)
      → (watch_from a pc s).cancellers ≡ s.cancellers
  unfolding watch_from
  watch_from-cancellers a _ s = ground arith

  cancel_from-others :
      (a : Answer K E) (i j : ℕ) (pc : CancelPc K) (s : System K E)
      → (j == i) ≡ false
      → (cancel_from a j pc s).cancellers i ≡ s.cancellers i
  unfolding cancel_from
  cancel_from-others a i j CancelPc.uncalled s e = ground arith
  cancel_from-others a i j _ s e = ground arith

  cancel_from-Within :
      (a : Answer K E) (i n : ℕ) (pc : CancelPc K) (s : System K E)
      → s.cancellers i ≡ pc
      → Within i (suc n) s
      → Within i n (cancel_from a i pc s)
  unfolding cancel_from
  cancel_from-Within a i n CancelPc.uncalled s e h = ground arith
  cancel_from-Within a i n _ s e h = ground arith

  turn_step-Within :
      (turn : Turn) (a : Answer K E) (i m n : ℕ) (s : System K E)
      → m ≤ own_turn i turn + n
      → Within i m s
      → Within i n (turn_step other t with_cancel turn a s)
  unfolding turn_step runner_step monitor_step cancel_step
  turn_step-Within Turn.runner a i m n s le h =
      rw (run_from-cancellers a s.runner s) (Within-le i m n s (omega (arith, le)) h)
  turn_step-Within Turn.monitor a i m n s le h =
      rw (watch_from-cancellers a s.monitor s) (Within-le i m n s (omega (arith, le)) h)
  turn_step-Within (Turn.canceller j) a i m n s le h = elim (Bool-cases (j == i)) [
    | inl own ↦
        let same : j ≡ i = ground arith in
        subst (λ j. Within i n (cancel_from a j (s.cancellers j) s)) (sym same)
          (cancel_from-Within a i n (s.cancellers i) s refl
            (Within-le i m (suc n) s (ground arith) h))
    | inr foreign ↦
        rw (cancel_from-others a i j (s.cancellers j) s foreign)
          (Within-le i m n s (ground arith) h)
  ]

  execute-Within :
      (schedule : List (Turn × Answer K E)) (i m n : ℕ) (s : System K E)
      → m ≤ own_turns i schedule + n
      → Within i m s
      → Within i n (execute other t with_cancel schedule s)
  unfolding own_turns execute
  execute-Within [] i m n s le h = Within-le i m n s (omega (arith, le)) h
  execute-Within ((turn, a) ∷ schedule) i m n s le h =
      execute-Within schedule i (own_turns i schedule + n) n
        (turn_step other t with_cancel turn a s) (omega arith)
        (turn_step-Within turn a i m (own_turns i schedule + n) s (omega (arith, le)) h)

  cancel_from-Mine :
      (a : Answer K E) (i : ℕ) (pc : CancelPc K) (s : System K E)
      → (s.owner ≡ none) ⊎ (s.owner ≡ some i)
      → let u = cancel_from a i pc s in (u.owner ≡ none) ⊎ (u.owner ≡ some i)
  unfolding cancel_from
  cancel_from-Mine a i CancelPc.uncalled s h = ground arith
  cancel_from-Mine a i _ s h = ground arith

  cancel_step-Mine :
      (a : Answer K E) (i : ℕ) (s : System K E)
      → (s.owner ≡ none) ⊎ (s.owner ≡ some i)
      → let u = cancel_step a i s in (u.owner ≡ none) ⊎ (u.owner ≡ some i)
  unfolding cancel_step
  cancel_step-Mine a i s h = cancel_from-Mine a i (s.cancellers i) s h

  -- A call of `cancel` that holds the mutex in a run has returned, and holds it no more, when it has had
  -- three turns, whatever the other threads do in between and whatever the environment answers.
  pub cancel_returns :
      (h : CancelHandle K) (s : System K E) (i : ℕ) (schedule : List (Turn × Answer K E))
      → Reach other t with_cancel (init E h) s
      → s.owner ≡ some i
      → 3 ≤ own_turns i schedule
      → let u = execute other t with_cancel schedule s in
        (u.cancellers i ≡ CancelPc.back) × (u.owner ≢ some i)
  cancel_returns h s i schedule r e le = (back, λ held. outside _ back (held_inside held))
    where
      u : System K E
      u = execute other t with_cancel schedule s

      inside : is_inside (s.cancellers i) ≡ true
      inside = Reach-Held other t with_cancel h r i e

      back : u.cancellers i ≡ CancelPc.back
      back = none_left i u (
          execute-Within schedule i 3 0 s (omega (arith, le))
            (inr (inside, three_left (s.cancellers i))))

      held_inside : u.owner ≡ some i → is_inside (u.cancellers i) ≡ true
      held_inside =
          Reach-Held other t with_cancel h
            (execute-Reach other t with_cancel schedule (init E h) s r) i

      outside : (pc : CancelPc K) → pc ≡ CancelPc.back → is_inside pc ≢ true
      outside pc is_back is_in = ground arith

  -- Without other threads the mutex is free then.
  mutex_released :
      (h : CancelHandle K) (s : System K E) (i : ℕ) (a b c : Answer K E)
      → Reach other t with_cancel (init E h) s
      → s.owner ≡ some i
      → (execute other t with_cancel
          ((Turn.canceller i, a) ∷ (Turn.canceller i, b) ∷ (Turn.canceller i, c) ∷ [])
          s).owner
        ≡ none
  unfolding execute turn_step own_turns
  mutex_released h s i a b c r e =
      let turns = (Turn.canceller i, a) ∷ (Turn.canceller i, b) ∷ (Turn.canceller i, c) ∷ [] in
      let returned = cancel_returns h s i turns r e (ground arith) in
      elim (cancel_step-Mine c i _ (cancel_step-Mine b i _ (cancel_step-Mine a i s (inr e)))) [
        | inl free ↦ free
        | inr held ↦ absurd (returned.1 held)
      ]
