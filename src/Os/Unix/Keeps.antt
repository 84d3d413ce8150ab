-- ===== src/Os/Unix/Keeps.antt =====
-- What is true of the signals that src/os/unix.rs has sent, and stays true when more are sent, is
-- still true after `kill_escalating`.
use mathlib.Core.Option.{some-injective}
use aer_core.Base.{
  ℕ, zero, suc, ◌+◌, ◌-◌, ◌/◌, min, ◌≡◌, subst, Option, none, some, List, ◌∷◌, ok, err, leb,
  if_cases,
}
use aer_core.Os.Unix.{
  Signal, sigterm, sigkill, Errno, esrch, errno, Sent, System, World, Poll, dead, expired,
  out_of_fuel, Reply, poll_interval, send_group, send_process, probe_process, deliver_on,
  tree_alive, deliver, poll, after_poll, after_sigterm, kill_escalating,
}

module _ {W : Type 0} (os : System W) (pgid : ℕ) (P : List Sent → Type 0)
    (grows : (s : Sent) (l : List Sent) → P l → P (s ∷ l)) where
  pub tree_alive-keeps : (w : World W) → P w.sent → P (tree_alive os pgid w).1.sent
  unfolding tree_alive send_group probe_process send_process
  tree_alive-keeps w h = go _ (grows _ _ h)
    where
      go : (x : Option Errno × World W) → P x.1.sent → P (probe_process os pgid x).1.sent
      go (none, w) h = h
      go (some esrch, w) h = grows _ _ h
      go (some (errno n), w) h = h

  deliver-keeps : (sig : Signal) (w : World W) → P w.sent → P (deliver os pgid sig w).1.sent
  unfolding deliver send_group deliver_on send_process
  deliver-keeps sig w h = go _ (grows _ _ h)
    where
      go : (x : Option Errno × World W) → P x.1.sent → P (deliver_on os pgid sig x).1.sent
      go (none, w) h = h
      go (some esrch, w) h = grows _ _ h
      go (some (errno n), w) h = h

  abbrev Kept : Poll W → Type 0
  Kept (dead u) = P u.sent
  Kept (expired u) = P u.sent
  Kept out_of_fuel = Unit

  poll-keeps : (fuel deadline : ℕ) (w : World W) → P w.sent → Kept (poll os pgid fuel deadline w)
  unfolding poll
  poll-keeps zero deadline w h = tt
  poll-keeps (suc fuel) deadline w h =
      let (alive, u) = tree_alive os pgid w in
      let now = (os.now u.state).0 in
      let v : World W = record u {
        state = os.sleep (min poll_interval (deadline - now)) (os.now u.state).1;
      } in
      let kept : P u.sent = tree_alive-keeps w h in
      if_cases Kept alive (if_cases Kept (leb deadline now) kept (poll-keeps fuel deadline v kept))
        kept

  after_poll-keeps :
      (p : Poll W) (r : Reply W (Unit {0})) → Kept p → after_poll os pgid p ≡ some r → P r.1.sent
  unfolding after_poll
  after_poll-keeps (dead u) r h e =
      subst (λ (x : Reply W (Unit {0})). P x.1.sent) (some-injective _ _ e) h
  after_poll-keeps (expired u) r h e =
      subst (λ (x : Reply W (Unit {0})). P x.1.sent) (some-injective _ _ e)
        (deliver-keeps sigkill u h)
  after_poll-keeps out_of_fuel r h e = cc

  after_sigterm-keeps :
      (grace : ℕ) (x r : Reply W (Unit {0}))
      → P x.1.sent
      → after_sigterm os pgid grace x ≡ some r
      → P r.1.sent
  unfolding after_sigterm
  after_sigterm-keeps grace (err e, u) r h k =
      subst (λ (x : Reply W (Unit {0})). P x.1.sent) (some-injective _ _ k) h
  after_sigterm-keeps grace (ok t, u) r h k =
      after_poll-keeps _ r
        (poll-keeps (grace / poll_interval + 2) ((os.now u.state).0 + grace)
          (record u { state = (os.now u.state).1 }) h)
        k

  pub kill_escalating-keeps :
      (grace : ℕ) (w : World W) (r : Reply W (Unit {0}))
      → P w.sent
      → kill_escalating os pgid grace w ≡ some r
      → P r.1.sent
  unfolding kill_escalating
  kill_escalating-keeps grace w r h = after_sigterm-keeps grace _ r (deliver-keeps sigterm w h)
