-- ===== src/Ffi/Store/Aliases.antt =====
-- Which task a cancel handle of src/ffi.rs reaches.
use aer_core.Base.{
  ℕ, String, true, false, ◌≡◌, ◌≢◌, refl, sym, subst, Option, some, List, [], ◌∷◌, arith, inl, inr,
  Option-cases,
}
use aer_core.Task.{Task, is_cancelled, new_handle}
use aer_core.Run.System.{Outcome}
use aer_core.Ffi.Handles.{AerTask}
use aer_core.Ffi.Run.{aer_task_make_cancel_handle, aer_cancel}
use aer_core.Ffi.Store.{
  Store, HandleCall, make_cancel, cancel, find, replace, drop_clone, make_cancel_on, perform,
}

find-replace :
    {A : Type 0} (p : ℕ) (a b : A) (l : List (ℕ × A))
    → find p l ≡ some a
    → find p (replace p b l) ≡ some b
unfolding find replace
find-replace p a b [] h = cc
find-replace p a b ((q, c) ∷ l) h = ground (arith, find-replace p a b l)

-- The task has a clone of the cell.
abbrev pub Holds : {C K : Type 0} → ℕ → ℕ → Store C K → Type 0
Holds task c s = (t : AerTask ℕ) × (find task s.tasks ≡ some t) × (t.cancel ≡ some c)

-- What a new handle leaves: the cell is held by the task, new and counted.
abbrev Made : {C K : Type 0} → ℕ → ℕ → ℕ → Store C K → Type 0
Made task box c s =
    Holds task c s
    × (find box s.cancels ≡ some c)
    × (s.strong c ≢ 0)
    × (is_cancelled (s.cells c) ≡ false)

make_cancel_on-Made :
    {C K : Type 0} (task box cell : ℕ) (t : AerTask ℕ) (s : Store C K)
    → find task s.tasks ≡ some t
    → Made task box cell (make_cancel_on task box cell t s)
unfolding make_cancel_on find aer_task_make_cancel_handle new_handle is_cancelled drop_clone
make_cancel_on-Made task box cell t s live = (
  (
    record t { cancel = some cell },
    find-replace task t (record t { cancel = some cell }) s.tasks live,
    refl,
  ),
  ground arith,
  elim (Option-cases t.cancel) [ inl e ↦ ground arith | inr (d, e) ↦ ground arith ],
  ground arith,
)

module _ {C K E : Type 0} (to_str : C → Option String) (cstring : String → Option C)
    (show_io : E → String) (payload : Option String) (execute : Task → Option ℕ → Outcome E) where
  abbrev step : HandleCall C → Store C K → Option (Store C K)
  step = perform to_str cstring show_io payload execute

  make_cancel-Made :
      (task box cell : ℕ) (s u : Store C K)
      → step (make_cancel (some task) box cell) s ≡ some u
      → Made task box cell u
  unfolding perform
  make_cancel-Made task box cell s u e = elim (Option-cases (find task s.tasks)) [
    | inl dangling ↦ ground arith
    | inr (t, live) ↦
        let e' : make_cancel_on task box cell t s ≡ u = ground arith in
        subst (Made task box cell) e' (make_cancel_on-Made task box cell t s live)
  ]

  make_cancel-fresh :
      (task box cell : ℕ) (s u : Store C K)
      → step (make_cancel (some task) box cell) s ≡ some u
      → s.strong cell ≡ 0
  unfolding perform
  make_cancel-fresh task box cell s u e = ground arith

  cancel-cells :
      (box c : ℕ) (s u : Store C K)
      → find box s.cancels ≡ some c
      → step (cancel (some box)) s ≡ some u
      → (u.tasks ≡ s.tasks)
        × (is_cancelled (u.cells c) ≡ true)
        × ((d : ℕ) → c ≢ d → u.cells d ≡ s.cells d)
  unfolding perform aer_cancel is_cancelled
  cancel-cells box c s u live e = (ground arith, ground arith, λ d other. ground arith)

  make_cancel-find :
      (task box cell p c : ℕ) (s u : Store C K)
      → step (make_cancel (some task) box cell) s ≡ some u
      → find p s.cancels ≡ some c
      → find p u.cancels ≡ some c
  unfolding perform make_cancel_on find aer_task_make_cancel_handle
  make_cancel-find task box cell p c s u e h = ground arith

  -- A cancel through the handle that `aer_task_make_cancel_handle` has returned for a task sets the
  -- flag of the very cell that the task holds and that its run reads.
  cancel_reaches_task :
      (task box cell : ℕ) (s u v : Store C K)
      → perform to_str cstring show_io payload execute (make_cancel (some task) box cell) s ≡ some u
      → perform to_str cstring show_io payload execute (cancel (some box)) u ≡ some v
      → Holds task cell v × (is_cancelled (v.cells cell) ≡ true)
  cancel_reaches_task task box cell s u v made cancelled =
      let ((t, live, holds), found, alive, new) = make_cancel-Made task box cell s u made in
      let (same, flagged, rest) = cancel-cells box cell u v found cancelled in
      ((t, rw same live, holds), flagged)

  -- A second handle for a task detaches the first: a cancel through the first one then leaves the
  -- cell that the task holds unflagged, so its run does not see the cancel.
  pub older_handle_detached :
      (task first c second d : ℕ) (s u v w : Store C K)
      → perform to_str cstring show_io payload execute (make_cancel (some task) first c) s ≡ some u
      → perform to_str cstring show_io payload execute (make_cancel (some task) second d) u ≡ some v
      → perform to_str cstring show_io payload execute (cancel (some first)) v ≡ some w
      → Holds task d w × (is_cancelled (w.cells d) ≡ false)
  older_handle_detached task first c second d s u v w made again cancelled =
      let (held, found, alive, new) = make_cancel-Made task first c s u made in
      let ((t, live, holds), found_second, alive_second, new_second) =
        make_cancel-Made task second d u v again in
      let (same, flagged, rest) =
        cancel-cells first c v w (make_cancel-find task second d first c u v again found)
          cancelled in
      (
        (t, rw same live, holds),
        rw
            (rest d (λ e.
              alive
                (subst (λ x. u.strong x ≡ 0) (sym e) (make_cancel-fresh task second d u v again))))
            new_second,
      )
