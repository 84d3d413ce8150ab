-- ===== src/Run/Direct/Sweep.antt =====
-- What a platform must keep for a sequential run of src/task.rs to leave nothing of the process tree
-- that it has started, as an interface, and the run as its client.
use aer_core.Base.{
  if_cases, ◌∷◌, ℤ, Bool, ◌≡◌, refl, subst, String, Option, none, some, List, [], Result, ok, err,
  if◌then◌else◌,
}
use aer_core.Error.{AerError}
use aer_core.Os.{OsHandle, ChunkMsg}
use aer_core.Os.Process.{OsProcess, OsProcessLaws}
use aer_core.Machine.{new, transition}
use aer_core.Task.{Task, CancelHandle}
use aer_core.Run.System.{Call}
use aer_core.Run.Direct.{
  Session, Finished, spawn_options, finish, report, leave, drop_slot, unwire, announce, abandon,
  after_wait, after_wiring, after_spawn, pump, run_direct,
}
use aer_core.Run.Direct.Simulation.{simple, running, run_direct-Follows}

-- After `wait` the tree is swept if there is an exit code; otherwise it is when `kill_escalating` and
-- `reap_abandoned` have followed.
abbrev pub SweptAfter :
    {W K C E : Type 0} → OsProcess W K C E → (W → Type 0) → K → Result ℤ (AerError E) × W → Type 0
SweptAfter os Swept kill (ok code, w) = Swept w
SweptAfter {W = W} {E = E} os Swept kill (err e, w) =
    (r : Result (Unit {0}) (AerError E) × W)
    → os.kill_escalating kill 0 (os.clone kill w) ≡ some r
    → Swept (os.reap_abandoned kill r.1)

-- `Swept` is what the platform makes of it; the drop of a kill handle does not undo it.
pub record SweepLaws {W K C E : Type 0} (os : OsProcess W K C E) (Swept : K → W → Type 0)
    : Type 0 where
  pub wait-SweptAfter :
      (child : C) (kill : K) (w : W) → SweptAfter os (Swept kill) kill (os.wait child kill w)
  pub drop-Swept : (kill other : K) (w : W) → Swept kill w → Swept kill (os.drop other w)

-- The run returns, and leaves a system in which the tree is swept.
abbrev pub ReturnsSwept : {W K E : Type 0} → (W → Type 0) → Finished W K E → Type 0
ReturnsSwept {W = W} {K = K} {E = E} Swept x =
    (r : Result (Unit {0}) (AerError E) × Session W K) × (x ≡ some r) × Swept r.1.world

module _ {W K C E : Type 0} (os : OsProcess W K C E) (Swept : K → W → Type 0)
    (laws : SweepLaws os Swept) (messages : List ChunkMsg) (with_cancel : Bool) where
  abbrev SweptBy : K → Finished W K E → Type 0
  SweptBy kill none = Unit
  SweptBy kill (some (result, s)) = Swept kill s.world

  module _ (t : Task) where
    abandon-Swept :
        (kill : K) (e : AerError E) (s : Session W K)
        (x : Option (Result (Unit {0}) (AerError E) × W))
        → ((r : Result (Unit {0}) (AerError E) × W)
            → x ≡ some r
            → Swept kill (os.reap_abandoned kill r.1))
        → SweptBy kill (abandon os t with_cancel messages kill e s x)
    unfolding abandon
    abandon-Swept kill e s none h = tt
    abandon-Swept kill e s (some r) h = laws.drop-Swept kill kill _ (h r refl)

    drop_slot-Swept :
        (kill : K) (slot : Option K) (w : W)
        → Swept kill w
        → Swept kill (drop_slot os t with_cancel messages slot w)
    unfolding drop_slot
    drop_slot-Swept kill none w h = h
    drop_slot-Swept kill (some k) w h = laws.drop-Swept kill k w h

    unwire-Swept :
        (kill : K) (s : Session W K)
        → Swept kill s.world
        → Swept kill (unwire os t with_cancel messages s).world
    unfolding unwire
    unwire-Swept kill s h =
        if_cases (λ (s : Session W K). Swept kill s.world) with_cancel
          (drop_slot-Swept kill s.cancel.kill s.world h) h

    after_wait-Swept :
        (kill : K) (s : Session W K) (x : Result ℤ (AerError E) × W)
        → SweptAfter os (Swept kill) kill x
        → SweptBy kill (after_wait os t with_cancel messages running kill s x)
    unfolding after_wait finish report leave transition
    after_wait-Swept kill s (ok code, w) h =
        laws.drop-Swept kill kill _
          (unwire-Swept kill (record s { calls = Call.waited kill code ∷ s.calls; world = w }) h)
    after_wait-Swept kill s (err e, w) h = abandon-Swept kill e (record s { world = w }) _ h

    after_wiring-Swept :
        (kill : K) (child : C) (x : Option (Session W K))
        → SweptBy kill (after_wiring os t with_cancel messages running kill child x)
    unfolding after_wiring
    after_wiring-Swept kill child none = tt
    after_wiring-Swept kill child (some s) =
        let delivered = pump (if t.capture_output then messages else []) s.events in
        after_wait-Swept kill (record s { events = delivered }) (os.wait child kill s.world)
          (laws.wait-SweptAfter child kill s.world)

    after_spawn-Swept :
        (ch : CancelHandle K) (h : OsHandle K) (child : C) (w : W)
        → SweptBy h.kill (after_spawn os t with_cancel messages ch (ok (h, child), w))
    unfolding after_spawn announce leave new transition
    after_spawn-Swept ch h child w = after_wiring-Swept h.kill child _

  -- A run that has started a process returns, and leaves its tree swept.
  pub run_direct-ReturnsSwept :
      OsProcessLaws os
      → E
      → (t : Task) (capture : Bool) (ch : CancelHandle K) (w w' : W) (h : OsHandle K) (child : C)
      → os.spawn t.program t.args (spawn_options t) w ≡ (ok (h, child), w')
      → ReturnsSwept (Swept h.kill) (run_direct os (simple capture t) with_cancel messages ch w)
  unfolding run_direct spawn_options
  run_direct-ReturnsSwept promises io t capture ch w w' h child e =
      let (r, returns, simulated) =
        run_direct-Follows os promises (λ (message : String). io) t messages capture with_cancel ch
          w in
      (
        r,
        returns,
        subst (SweptBy h.kill) returns (rw e (after_spawn-Swept (simple capture t) ch h child w')),
      )
