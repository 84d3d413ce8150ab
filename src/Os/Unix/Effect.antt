-- ===== src/Os/Unix/Effect.antt =====
-- What `kill_escalating` of src/os/unix.rs has achieved when it returns.
use mathlib.Core.Option.{some-injective}
use aer_core.Base.{
  ℕ, zero, suc, ◌+◌, ◌-◌, ◌/◌, min, false, ◌≡◌, refl, subst, ◌⊎◌, inl, inr, Option, none, some, ◌∷◌,
  ok, err, leb, Bool-cases, arith, if_cases,
}
use aer_core.Error.{AerError, kill_failed}
use aer_core.Os.Unix.{
  Signal, probe, sigterm, sigkill, Errno, esrch, errno, Sent, System, World, Poll, dead, expired,
  out_of_fuel, Reply, poll_interval, tree_alive, deliver, poll, after_poll, after_sigterm,
  kill_escalating,
}

module _ {W : Type 0} (os : System W) (pgid : ℕ) where
  abbrev group_answer : Signal → World W → Option Errno
  group_answer sig w = (os.killpg pgid sig w.state).0

  -- What a signal to the group leaves, and one to the group and then to the root.
  abbrev after_group : Signal → World W → World W
  after_group sig w = record {
    state = (os.killpg pgid sig w.state).1;
    sent = Sent.group sig pgid ∷ w.sent;
  }

  abbrev after_root : Signal → World W → World W
  after_root sig w = record {
    state = (os.kill pgid sig (os.killpg pgid sig w.state).1).1;
    sent = Sent.process sig pgid ∷ Sent.group sig pgid ∷ w.sent;
  }

  -- The last thing done was a probe of the group and then of the root, and both failed with ESRCH.
  abbrev pub FoundDead : World W → Type 0
  FoundDead u =
      (w : World W) × (group_answer probe w ≡ some esrch)
      × ((os.kill pgid probe (os.killpg pgid probe w.state).1).0 ≡ some esrch)
      × (u ≡ after_root probe w)

  -- The last thing done was a SIGKILL for the group that succeeded, or one for the group that
  -- failed with ESRCH and then one for the root.
  abbrev pub Killed : World W → Type 0
  Killed u =
      (w : World W) × ((group_answer sigkill w ≡ none) × (u ≡ after_group sigkill w)
        ⊎ (group_answer sigkill w ≡ some esrch) × (u ≡ after_root sigkill w))

  -- The tree is dead or killed, or a signal was refused for another reason than ESRCH.
  abbrev pub Achieved : Reply W (Unit {0}) → Type 0
  Achieved (ok t, u) = FoundDead u ⊎ Killed u
  Achieved (err e, u) = (n : ℕ) × (e ≡ kill_failed (errno n))

  deliver-Achieved : (w : World W) → Achieved (deliver os pgid sigkill w)
  unfolding deliver
  deliver-Achieved w = go (os.killpg pgid sigkill w.state).0 refl
    where
      go :
          (answer : Option Errno)
          → (os.killpg pgid sigkill w.state).0 ≡ answer
          → Achieved (deliver os pgid sigkill w)
      go none e = rw e (inr (w, inl (e, refl)))
      go (some esrch) e = rw e (inr (w, inr (e, refl)))
      go (some (errno n)) e = rw e (n, refl)

  deliver-error :
      (sig : Signal) (w u : World W) (e : AerError Errno)
      → deliver os pgid sig w ≡ (err e, u)
      → (n : ℕ) × (e ≡ kill_failed (errno n))
  unfolding deliver
  deliver-error sig w u e = go (os.killpg pgid sig w.state).0 refl
    where
      go :
          (answer : Option Errno)
          → (os.killpg pgid sig w.state).0 ≡ answer
          → deliver os pgid sig w ≡ (err e, u)
          → (n : ℕ) × (e ≡ kill_failed (errno n))
      go none a h = ground arith
      go (some esrch) a h = ground arith
      go (some (errno n)) a h = (n, ground arith)

  tree_alive-FoundDead :
      (w : World W) → (tree_alive os pgid w).0 ≡ false → FoundDead (tree_alive os pgid w).1
  unfolding tree_alive
  tree_alive-FoundDead w e = (w, ground arith, ground arith, ground arith)

  abbrev AchievedPoll : Poll W → Type 0
  AchievedPoll (dead u) = FoundDead u
  AchievedPoll (expired u) = Unit
  AchievedPoll out_of_fuel = Unit

  poll-Achieved : (fuel deadline : ℕ) (w : World W) → AchievedPoll (poll os pgid fuel deadline w)
  unfolding poll
  poll-Achieved zero deadline w = tt
  poll-Achieved (suc fuel) deadline w =
      let (alive, u) = tree_alive os pgid w in
      let now = (os.now u.state).0 in
      let v : World W = record u {
        state = os.sleep (min poll_interval (deadline - now)) (os.now u.state).1;
      } in
      elim (Bool-cases alive) [
        | inl e ↦ rw e (if_cases AchievedPoll (leb deadline now) tt (poll-Achieved fuel deadline v))
        | inr e ↦ rw e (tree_alive-FoundDead w e)
      ]

  after_poll-Achieved :
      (p : Poll W) (r : Reply W (Unit {0}))
      → AchievedPoll p
      → after_poll os pgid p ≡ some r
      → Achieved r
  unfolding after_poll
  after_poll-Achieved (dead u) r h e = subst Achieved (some-injective _ _ e) (inl h)
  after_poll-Achieved (expired u) r h e = subst Achieved (some-injective _ _ e) (deliver-Achieved u)
  after_poll-Achieved out_of_fuel r h e = cc

  after_sigterm-Achieved :
      (grace : ℕ) (w : World W) (x r : Reply W (Unit {0}))
      → deliver os pgid sigterm w ≡ x
      → after_sigterm os pgid grace x ≡ some r
      → Achieved r
  unfolding after_sigterm
  after_sigterm-Achieved grace w (err e, u) r h k =
      subst Achieved (some-injective _ _ k) (deliver-error sigterm w u e h)
  after_sigterm-Achieved grace w (ok t, u) r h k =
      after_poll-Achieved _ r
        (poll-Achieved (grace / poll_interval + 2) ((os.now u.state).0 + grace)
          (record u { state = (os.now u.state).1 }))
        k

  -- When `kill_escalating` returns `Ok`, the last thing that it did was to find the process tree dead,
  -- by probes of the group and of the root that both failed with ESRCH; or to send a SIGKILL to
  -- the group that succeeded; or, after one to the group that failed with ESRCH, to send SIGKILL
  -- to its root. The only error that it returns is `KillFailed`, with another number than ESRCH.
  pub kill_escalating-Achieved :
      (grace : ℕ) (w : World W) (r : Reply W (Unit {0}))
      → kill_escalating os pgid grace w ≡ some r
      → Achieved r
  unfolding kill_escalating
  kill_escalating-Achieved grace w r = after_sigterm-Achieved grace w _ r refl
