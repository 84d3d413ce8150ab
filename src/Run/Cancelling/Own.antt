-- ===== src/Run/Cancelling/Own.antt =====
-- A cancel reaches the process that the run itself has started (src/task.rs).
use aer_core.Base.{
  ℕ, String, true, false, ◌≡◌, ◌≢◌, refl, ap, sym, ◌∙◌, ◌⊎◌, inl, inr, none, List, [], ◌∷◌, err,
}
use aer_core.Error.{AerError}
use aer_core.Task.{Task, CancelHandle, kill_grace, is_cancelled}
use aer_core.Run.System.{
  returned, Pc, CancelPc, Call, Caller, spawned, waited, tree_alive, kill_escalating,
  reap_abandoned, System, init,
}
use aer_core.Run.Schedule.{Reach}
use aer_core.Run.Cleanup.{Spawned}
use aer_core.Run.Ownership.{OnlyOn}
use aer_core.Run.Ownership.Invariant.{run_owns}
use aer_core.Run.Cancelling.{Shot, FoundDead, is_busy, is_killing}
use aer_core.Run.Cancelling.Heard.{true≢false, is_listening, listening-Served}
use aer_core.Run.Cancelling.Killed.{is_striking, Reach-Fired, ended-Shot}
use aer_core.Run.Cancelling.Begun.{is_blank, HasSpawned-Spawned, Reach-Begun}

module _ {K : Type 0} (k : K) where
  -- The last kill by a cancel, in `cancel` or in the test that `run_impl` makes for it, is of `k`
  -- with the full grace period.
  abbrev pub ShotOn : List (Call K) → Type 0
  ShotOn [] = ⊥
  ShotOn (kill_escalating Caller.runner k' grace ∷ l) = (k' ≡ k) × (grace ≡ kill_grace)
  ShotOn (kill_escalating (Caller.canceller i) k' grace ∷ l) = (k' ≡ k) × (grace ≡ kill_grace)
  ShotOn (kill_escalating who k' grace ∷ l) = ShotOn l
  ShotOn (spawned k' ∷ l) = ShotOn l
  ShotOn (waited k' code ∷ l) = ShotOn l
  ShotOn (tree_alive who k' alive ∷ l) = ShotOn l
  ShotOn (reap_abandoned k' ∷ l) = ShotOn l

  -- The last probe by a cancel that found a tree dead is of the tree of `k`.
  abbrev pub FoundDeadOn : List (Call K) → Type 0
  FoundDeadOn [] = ⊥
  FoundDeadOn (tree_alive Caller.runner k' false ∷ l) = k' ≡ k
  FoundDeadOn (tree_alive (Caller.canceller i) k' false ∷ l) = k' ≡ k
  FoundDeadOn (tree_alive who k' alive ∷ l) = FoundDeadOn l
  FoundDeadOn (kill_escalating who k' grace ∷ l) = FoundDeadOn l
  FoundDeadOn (spawned k' ∷ l) = FoundDeadOn l
  FoundDeadOn (waited k' code ∷ l) = FoundDeadOn l
  FoundDeadOn (reap_abandoned k' ∷ l) = FoundDeadOn l

  Shot-ShotOn : (l : List (Call K)) → OnlyOn k l → Shot l → ShotOn l
  Shot-ShotOn [] o h = absurd h
  Shot-ShotOn (kill_escalating Caller.runner k' grace ∷ l) (on, o) h = (on, h)
  Shot-ShotOn (kill_escalating (Caller.canceller i) k' grace ∷ l) (on, o) h = (on, h)
  Shot-ShotOn (kill_escalating Caller.monitor k' grace ∷ l) (on, o) h = Shot-ShotOn l o h
  Shot-ShotOn (kill_escalating Caller.guard k' grace ∷ l) (on, o) h = Shot-ShotOn l o h
  Shot-ShotOn (spawned k' ∷ l) (on, o) h = Shot-ShotOn l o h
  Shot-ShotOn (waited k' code ∷ l) (on, o) h = Shot-ShotOn l o h
  Shot-ShotOn (tree_alive who k' alive ∷ l) (on, o) h = Shot-ShotOn l o h
  Shot-ShotOn (reap_abandoned k' ∷ l) (on, o) h = Shot-ShotOn l o h

  FoundDead-FoundDeadOn : (l : List (Call K)) → OnlyOn k l → FoundDead l → FoundDeadOn l
  FoundDead-FoundDeadOn [] o h = absurd h
  FoundDead-FoundDeadOn (tree_alive Caller.runner k' false ∷ l) (on, o) h = on
  FoundDead-FoundDeadOn (tree_alive (Caller.canceller i) k' false ∷ l) (on, o) h = on
  FoundDead-FoundDeadOn (tree_alive Caller.runner k' true ∷ l) (on, o) h =
      FoundDead-FoundDeadOn l o h
  FoundDead-FoundDeadOn (tree_alive (Caller.canceller i) k' true ∷ l) (on, o) h =
      FoundDead-FoundDeadOn l o h
  FoundDead-FoundDeadOn (tree_alive Caller.monitor k' alive ∷ l) (on, o) h =
      FoundDead-FoundDeadOn l o h
  FoundDead-FoundDeadOn (tree_alive Caller.guard k' alive ∷ l) (on, o) h =
      FoundDead-FoundDeadOn l o h
  FoundDead-FoundDeadOn (kill_escalating who k' grace ∷ l) (on, o) h = FoundDead-FoundDeadOn l o h
  FoundDead-FoundDeadOn (spawned k' ∷ l) (on, o) h = FoundDead-FoundDeadOn l o h
  FoundDead-FoundDeadOn (waited k' code ∷ l) (on, o) h = FoundDead-FoundDeadOn l o h
  FoundDead-FoundDeadOn (reap_abandoned k' ∷ l) (on, o) h = FoundDead-FoundDeadOn l o h

module _ {K E : Type 0} (other : String → E) (t : Task) where
  module _ (h : CancelHandle K) where
    own_process :
        (s : System K E)
        → h.kill ≡ none
        → Reach other t true (init E h) s
        → is_blank s.runner ≡ false
        → (k : K) × Spawned k s.calls × OnlyOn k s.calls
    own_process s empty r begun =
        let (k, started) = HasSpawned-Spawned s.calls (Reach-Begun other t h r begun) in
        (k, started, run_owns k other t true h s empty r started)

    listening-not_blank :
        (pc : Pc K E) → is_listening pc ≡ true → (is_blank pc ≡ false) × (is_striking pc ≢ true)
    listening-not_blank (Pc.watching x) l = (refl, λ e. cc)
    listening-not_blank (Pc.choosing x) l = (refl, λ e. cc)
    listening-not_blank (Pc.pumping x) l = (refl, λ e. cc)
    listening-not_blank (Pc.settling x) l = (refl, λ e. cc)
    listening-not_blank (Pc.waiting x) l = (refl, λ e. cc)
    listening-not_blank (Pc.disarming x code) l = (refl, λ e. cc)
    listening-not_blank (Pc.clearing x code) l = (refl, λ e. cc)
    listening-not_blank _ l = cc

    killing-busy : (pc : CancelPc K) → is_killing pc ≡ true → is_busy pc ≡ true
    killing-busy (CancelPc.killing k) e = refl
    killing-busy _ e = cc

    served_or_dead :
        (s : System K E)
        → h.poisoned ≡ false
        → h.kill_fired ≡ false
        → Reach other t true (init E h) s
        → is_listening s.runner ≡ true
        → is_cancelled s.cancel ≡ true
        → ((i : ℕ) → is_busy (s.cancellers i) ≡ false)
        → Shot s.calls ⊎ FoundDead s.calls
    served_or_dead s healthy fresh r l c idle = elim (listening-Served other t h healthy s r l c) [
      | inl fired ↦ elim (Reach-Fired other t h fresh r fired) [
        | inl shot ↦ inl shot
        | inr (inl strike) ↦ absurd ((listening-not_blank s.runner l).1 strike)
        | inr (inr (i, kills)) ↦
            absurd (true≢false (sym (killing-busy (s.cancellers i) kills) ∙ idle i))
      ]
      | inr (inl dead) ↦ inr dead
      | inr (inr (i, busy)) ↦ absurd (true≢false (sym busy ∙ idle i))
    ]

    -- No cancel is lost. If the run starts with a handle that is not poisoned, was not fired and holds
    -- no kill handle, then from the runner's own test for a cancel until it unwires the handle: if
    -- a cancel was requested, before or after the start of the run, and no call of `cancel` is
    -- still at work, then a cancel has killed the process that this run spawned, with the grace
    -- period `KILL_GRACE`, or has probed the tree of that process and found it dead.
    pub cancel_heard :
        (s : System K E)
        → h.poisoned ≡ false
        → h.kill_fired ≡ false
        → h.kill ≡ none
        → Reach other t true (init E h) s
        → is_listening s.runner ≡ true
        → is_cancelled s.cancel ≡ true
        → ((i : ℕ) → is_busy (s.cancellers i) ≡ false)
        → (k : K) × Spawned k s.calls × (ShotOn k s.calls ⊎ FoundDeadOn k s.calls)
    cancel_heard s healthy fresh empty r l c idle =
        let (k, started, only) = own_process s empty r (listening-not_blank s.runner l).0 in
        (
          k,
          started,
          elim (served_or_dead s healthy fresh r l c idle) [
            | inl shot ↦ inl (Shot-ShotOn k s.calls only shot)
            | inr dead ↦ inr (FoundDead-FoundDeadOn k s.calls only dead)
          ],
        )

    -- If the handle was not fired before the run and held no kill handle, a run that returns
    -- `Cancelled` was killed: a call of `kill_escalating` on the process that this run spawned, with
    -- the grace period `KILL_GRACE`, was made by a call of `cancel` or by the runner's own test
    -- for a cancel, and is complete when the run returns.
    pub ended-ShotOn :
        (s : System K E)
        → h.kill_fired ≡ false
        → h.kill ≡ none
        → Reach other t true (init E h) s
        → s.runner ≡ Pc.ended (returned (err AerError.cancelled))
        → (k : K) × Spawned k s.calls × ShotOn k s.calls
    ended-ShotOn s fresh empty r e =
        let (k, started, only) = own_process s empty r (ap is_blank e) in
        (k, started, Shot-ShotOn k s.calls only (ended-Shot other t h fresh s r e))
