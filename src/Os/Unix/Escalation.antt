-- ===== src/Os/Unix/Escalation.antt =====
-- The escalation of `kill_escalating` in src/os/unix.rs: it ends, it does not fire early, and its
-- probe errs towards "alive".
use mathlib.Core.Option.{some-injective}
use native.Mathlib.Nat.{le_trans}
use aer_core.Base.{
  ℕ, zero, suc, ◌+◌, ◌-◌, ◌*◌, ◌/◌, ◌≤◌, min, Bool, false, ◌≡◌, ◌≢◌, ◌↔◌, refl, sym, subst, ap, ◌∙◌,
  if_cases, ◌⊎◌, inl, inr, none, some, List, [], ◌∷◌, ok, err, leb, if◌then◌else◌, Bool-cases,
  Option-cases, arith,
}
use aer_core.Os.Unix.{
  Signal, probe, sigterm, sigkill, esrch, Sent, System, World, Poll, dead, expired, out_of_fuel,
  Reply, poll_interval, tree_alive, deliver, poll, after_poll, after_sigterm, kill_escalating,
}

-- What std and POSIX document of the time that calls take: no call turns the clock back, `now` reads
-- it, and `sleep` takes at least the time that it is given.
pub record ClockLaws {W : Type 0} (os : System W) (clock : W → ℕ) : Type 0 where
  pub clock-killpg : (k : ℕ) (sig : Signal) (w : W) → clock w ≤ clock (os.killpg k sig w).1
  pub clock-kill : (k : ℕ) (sig : Signal) (w : W) → clock w ≤ clock (os.kill k sig w).1
  pub now_reads : (w : W) → (clock w ≤ (os.now w).0) × ((os.now w).0 ≤ clock (os.now w).1)
  pub clock-sleep : (d : ℕ) (w : W) → clock w + d ≤ clock (os.sleep d w)

-- How many SIGKILLs were sent.
abbrev is_sigkill : Sent → ℕ
is_sigkill (Sent.group sigkill k) = 1
is_sigkill (Sent.process sigkill k) = 1
is_sigkill _ = 0

pub sigkills : List Sent → ℕ
sigkills [] = 0
sigkills (s ∷ l) = is_sigkill s + sigkills l

module _ {W : Type 0} (os : System W) (pgid : ℕ) where
  -- `tree_alive` answers "dead" exactly if the probe of the group and then the probe of the process
  -- itself both fail with ESRCH: any other answers count as "alive".
  tree_alive_iff :
      (w : World W)
      → let (r, state) = os.killpg pgid probe w.state in
        ((tree_alive os pgid w).0 ≡ false)
        ↔ ((r ≡ some esrch) × ((os.kill pgid probe state).0 ≡ some esrch))
  unfolding tree_alive
  tree_alive_iff w = (λ h. ground arith, λ h. ground arith)

  module _ (clock : W → ℕ) (laws : ClockLaws os clock) where
    open laws use {clock-killpg, clock-kill, now_reads, clock-sleep}

    pub tree_alive-clock : (w : World W) → clock w.state ≤ clock (tree_alive os pgid w).1.state
    unfolding tree_alive
    tree_alive-clock w = ground (
      arith,
      clock-killpg pgid probe w.state,
      clock-kill pgid probe (os.killpg pgid probe w.state).1,
    )

    tree_alive-sigkills : (w : World W) → sigkills (tree_alive os pgid w).1.sent ≡ sigkills w.sent
    unfolding tree_alive sigkills
    tree_alive-sigkills w = ground arith

    -- What one round of the polling loop reads and leaves.
    abbrev pub probed : World W → Bool × World W
    probed = tree_alive os pgid

    abbrev pub read_now : World W → ℕ
    read_now w = (os.now (probed w).1.state).0

    abbrev pub read_world : World W → World W
    read_world w = record ((probed w).1) { state = (os.now (probed w).1.state).1 }

    abbrev pub slept : ℕ → World W → World W
    slept deadline w = record ((probed w).1) {
      state = os.sleep (min poll_interval (deadline - read_now w)) (os.now (probed w).1.state).1;
    }

    pub poll-suc :
        (fuel deadline : ℕ) (w : World W)
        → poll os pgid (suc fuel) deadline w ≡ (
            if (probed w).0
            then (if leb deadline (read_now w)
                then expired (read_world w)
                else poll os pgid fuel deadline (slept deadline w))
            else dead (probed w).1)
    unfolding poll
    poll-suc fuel deadline w = refl

    pub clock-slept :
        (deadline : ℕ) (w : World W)
        → clock w.state + min poll_interval (deadline - clock w.state)
          ≤ clock (slept deadline w).state
    clock-slept deadline w = omega (
      arith,
      tree_alive-clock w,
      now_reads (probed w).1.state,
      clock-sleep (min poll_interval (deadline - read_now w)) (os.now (probed w).1.state).1,
    )

    poll_total :
        (fuel deadline : ℕ) (w : World W)
        → deadline ≤ clock w.state + poll_interval * fuel
        → poll os pgid (suc fuel) deadline w ≢ out_of_fuel
    poll_total zero deadline w h e =
        ground (arith, poll-suc zero deadline w, tree_alive-clock w, now_reads (probed w).1.state)
    poll_total (suc fuel) deadline w h e = ground (
      arith,
      poll-suc (suc fuel) deadline w,
      clock-slept deadline w,
      poll_total fuel deadline (slept deadline w),
    )

    -- What the loop has done when it ends: sent no SIGKILL, and run to the deadline if it expired.
    abbrev Polled : ℕ → World W → Poll W → Type 0
    Polled deadline w (dead w') =
        (sigkills w'.sent ≡ sigkills w.sent) × (clock w.state ≤ clock w'.state)
    Polled deadline w (expired w') =
        (sigkills w'.sent ≡ sigkills w.sent) × (deadline ≤ clock w'.state)
    Polled deadline w out_of_fuel = Unit

    Polled-from :
        (deadline : ℕ) (w u : World W) (r : Poll W)
        → sigkills u.sent ≡ sigkills w.sent
        → clock w.state ≤ clock u.state
        → Polled deadline u r
        → Polled deadline w r
    Polled-from deadline w u (dead w') k c h = (h.0 ∙ k, omega arith)
    Polled-from deadline w u (expired w') k c h = (h.0 ∙ k, h.1)
    Polled-from deadline w u out_of_fuel k c h = tt

    clock-le-slept : (deadline : ℕ) (w : World W) → clock w.state ≤ clock (slept deadline w).state
    clock-le-slept deadline w = omega (arith, clock-slept deadline w)

    poll-Polled :
        (fuel deadline : ℕ) (w : World W) → Polled deadline w (poll os pgid fuel deadline w)
    poll-Polled zero deadline w = unfold poll in tt
    poll-Polled (suc fuel) deadline w = subst (Polled deadline w) (sym (poll-suc fuel deadline w)) (
        if_cases (Polled deadline w) (probed w).0
          (elim (Bool-cases (leb deadline (read_now w))) [
            | inl late ↦
                rw late (tree_alive-sigkills w, ground (arith, now_reads (probed w).1.state))
            | inr early ↦ rw early (
                Polled-from deadline w (slept deadline w) _ (tree_alive-sigkills w)
                  (clock-le-slept deadline w) (poll-Polled fuel deadline (slept deadline w)))
          ])
          (tree_alive-sigkills w, tree_alive-clock w))

    deliver-clock :
        (sig : Signal) (w : World W) → clock w.state ≤ clock (deliver os pgid sig w).1.state
    unfolding deliver
    deliver-clock sig w =
        ground
          (arith, clock-killpg pgid sig w.state, clock-kill pgid sig (os.killpg pgid sig w.state).1)

    sigterm-sigkills : (w : World W) → sigkills (deliver os pgid sigterm w).1.sent ≡ sigkills w.sent
    unfolding deliver sigkills
    sigterm-sigkills w = ground arith

    after_poll-eq-none : (p : Poll W) → after_poll os pgid p ≡ none → p ≡ out_of_fuel
    unfolding after_poll
    after_poll-eq-none (dead w) e = cc
    after_poll-eq-none (expired w) e = cc
    after_poll-eq-none out_of_fuel e = refl

    after_sigterm-ne-none :
        (grace : ℕ) (x : Reply W (Unit {0})) → after_sigterm os pgid grace x ≢ none
    unfolding after_sigterm
    after_sigterm-ne-none grace (err e, w) h = cc
    after_sigterm-ne-none grace (ok u, w) h =
        poll_total (grace / poll_interval + 1) ((os.now w.state).0 + grace) started
          (ground (arith, now_reads w.state))
          (ap (λ (n : ℕ). poll os pgid n ((os.now w.state).0 + grace) started)
              (suc_add_one (grace / poll_interval))
            ∙ after_poll-eq-none _ h)
      where
        started : World W
        started = record w { state = (os.now w.state).1 }

        suc_add_one : (n : ℕ) → suc (n + 1) ≡ n + 2
        suc_add_one n = omega arith

    after_poll_patient :
        (deadline : ℕ) (w : World W) (p : Poll W) (r : Reply W (Unit {0}))
        → Polled deadline w p
        → after_poll os pgid p ≡ some r
        → (sigkills r.1.sent ≡ sigkills w.sent) ⊎ (deadline ≤ clock r.1.state)
    unfolding after_poll
    after_poll_patient deadline w (dead w') r h e = inl (
        subst (λ (x : Reply W (Unit {0})). sigkills x.1.sent ≡ sigkills w.sent)
          (some-injective _ _ e) h.0)
    after_poll_patient deadline w (expired w') r h e = inr (
        subst (λ (x : Reply W (Unit {0})). deadline ≤ clock x.1.state) (some-injective _ _ e)
          (le_trans h.1 (deliver-clock sigkill w')))
    after_poll_patient deadline w out_of_fuel r h e = cc

    after_sigterm_patient :
        (grace : ℕ) (w : World W) (x r : Reply W (Unit {0}))
        → sigkills x.1.sent ≡ sigkills w.sent
        → clock w.state ≤ clock x.1.state
        → after_sigterm os pgid grace x ≡ some r
        → (sigkills r.1.sent ≡ sigkills w.sent) ⊎ (clock w.state + grace ≤ clock r.1.state)
    unfolding after_sigterm
    after_sigterm_patient grace w (err e, u) r k c h = inl (
        subst (λ (x : Reply W (Unit {0})). sigkills x.1.sent ≡ sigkills w.sent)
          (some-injective _ _ h) k)
    after_sigterm_patient grace w (ok t, u) r k c h =
        elim (after_poll_patient ((os.now u.state).0 + grace)
          (record u { state = (os.now u.state).1 }) _ r
          (poll-Polled (grace / poll_interval + 2) _ _) h) [
            | inl none_sent ↦ inl (none_sent ∙ k)
            | inr late ↦ inr (ground (arith, now_reads u.state))
          ]

    -- If no call turns the clock back and `sleep` takes at least its time, the loop has fuel enough
    -- for any grace period: `kill_escalating` returns.
    pub kill_escalating_total : (grace : ℕ) (w : World W) → kill_escalating os pgid grace w ≢ none
    unfolding kill_escalating
    kill_escalating_total grace w = after_sigterm-ne-none grace (deliver os pgid sigterm w)

    kill_escalating_patient :
        (grace : ℕ) (w : World W) (r : Reply W (Unit {0}))
        → kill_escalating os pgid grace w ≡ some r
        → (sigkills r.1.sent ≡ sigkills w.sent) ⊎ (clock w.state + grace ≤ clock r.1.state)
    unfolding kill_escalating
    kill_escalating_patient grace w r e =
        after_sigterm_patient grace w (deliver os pgid sigterm w) r (sigterm-sigkills w)
          (deliver-clock sigterm w) e

    -- If no call turns the clock back and `sleep` takes at least its time, `kill_escalating` returns,
    -- and it sends SIGKILL only after the whole grace period: when it returns, either it has sent
    -- no SIGKILL or the clock stands at the time of the call plus the grace period, or later.
    pub kill_escalating_waits :
        (grace : ℕ) (w : World W)
        → (r : Reply W (Unit {0})) × (kill_escalating os pgid grace w ≡ some r)
          × ((sigkills r.1.sent ≡ sigkills w.sent) ⊎ (clock w.state + grace ≤ clock r.1.state))
    kill_escalating_waits grace w = elim (Option-cases (kill_escalating os pgid grace w)) [
      | inl stuck ↦ absurd (kill_escalating_total grace w stuck)
      | inr (r, e) ↦ (r, e, kill_escalating_patient grace w r e)
    ]
