-- ===== src/Ffi/Store/Counts.antt =====
-- The `Arc` counts of src/ffi.rs: no handle leads to a freed cell, and no cell outlives its handles.
use mathlib.Core.Option.{some-injective}
use aer_core.Base.{
  update, ℕ, ◌⊎◌, inl, inr, Option-cases, Bool-cases, ◌+◌, ◌-◌, String, ◌≡◌, ◌≢◌, refl, subst,
  Option, none, some, List, [], ◌∷◌, ◌==◌, if◌then◌else◌, arith,
}
use aer_core.Task.{Task}
use aer_core.Run.System.{Outcome}
use aer_core.Ffi.Handles.{AerTask}
use aer_core.Ffi.Create.{aer_task_new}
use aer_core.Ffi.Frozen.{FfiCall, call}
use aer_core.Ffi.Store.{
  Store, empty, HandleCall, task_new, make_cancel, on_task, cancel, task_free, cancel_free, find,
  remove, replace, drop_clone, make_cancel_on, aer_task_free, aer_cancel_free, perform, performs,
}

abbrev one : ℕ → Option ℕ → ℕ
one c none = 0
one c (some d) = if d == c then 1 else 0

-- A live handle leads to the cell.
abbrev pub Refers : {C K : Type 0} → ℕ → Store C K → Type 0
Refers c s =
    ((box : ℕ) × (find box s.cancels ≡ some c))
    ⊎ ((task : ℕ) × (t : AerTask ℕ) × (find task s.tasks ≡ some t) × (t.cancel ≡ some c))

-- How many tasks hold a clone of the cell.
task_refs : ℕ → List (ℕ × AerTask ℕ) → ℕ
task_refs c [] = 0
task_refs c ((p, t) ∷ l) = one c t.cancel + task_refs c l

cancel_refs : ℕ → List (ℕ × ℕ) → ℕ
cancel_refs c [] = 0
cancel_refs c ((p, d) ∷ l) = one c (some d) + cancel_refs c l

-- The count of every cell is the number of its handles.
abbrev Counted : {C K : Type 0} → Store C K → Type 0
Counted s = (c : ℕ) → s.strong c ≡ task_refs c s.tasks + cancel_refs c s.cancels

task_refs-replace :
    (c p : ℕ) (t t' : AerTask ℕ) (l : List (ℕ × AerTask ℕ))
    → find p l ≡ some t
    → task_refs c (replace p t' l) + one c t.cancel ≡ task_refs c l + one c t'.cancel
unfolding task_refs find replace
task_refs-replace c p t t' [] h = cc
task_refs-replace c p t t' ((q, u) ∷ l) h = ground (arith, task_refs-replace c p t t' l)

task_refs-remove :
    (c p : ℕ) (t : AerTask ℕ) (l : List (ℕ × AerTask ℕ))
    → find p l ≡ some t
    → task_refs c (remove p l) + one c t.cancel ≡ task_refs c l
unfolding task_refs find remove
task_refs-remove c p t [] h = cc
task_refs-remove c p t ((q, u) ∷ l) h = ground (arith, task_refs-remove c p t l)

cancel_refs-remove :
    (c p d : ℕ) (l : List (ℕ × ℕ))
    → find p l ≡ some d
    → cancel_refs c (remove p l) + one c (some d) ≡ cancel_refs c l
unfolding cancel_refs find remove
cancel_refs-remove c p d [] h = cc
cancel_refs-remove c p d ((q, e) ∷ l) h = ground (arith, cancel_refs-remove c p d l)

drop_clone-one :
    (old : Option ℕ) (strong : ℕ → ℕ) (c : ℕ) → drop_clone old strong c ≡ strong c - one c old
unfolding drop_clone
drop_clone-one none strong c = omega arith
drop_clone-one (some d) strong c = ground arith

module _ {C E : Type 0} (to_str : C → Option String) (cstring : String → Option C)
    (show_io : E → String) (payload : Option String) (execute : Task → Option ℕ → Outcome E) where
  call-cancel :
      (c : FfiCall C) (t t' : AerTask ℕ) (msg : Option C)
      → (call to_str cstring show_io payload execute c (some t) msg).1 ≡ some t'
      → t'.cancel ≡ t.cancel
  unfolding call
  call-cancel (FfiCall.with_timeout ms) t t' msg h = ground arith
  call-cancel _ t t' msg h = ground arith

make_cancel_on-Counted :
    {C K : Type 0} (task box cell : ℕ) (t : AerTask ℕ) (s : Store C K)
    → find task s.tasks ≡ some t
    → s.strong cell ≡ 0
    → Counted s
    → Counted (make_cancel_on task box cell t s)
unfolding make_cancel_on cancel_refs
make_cancel_on-Counted task box cell t s e free h c = ground (
  arith,
  h c,
  h cell,
  drop_clone-one t.cancel (update s.strong cell 2) c,
  task_refs-replace c task t (record t { cancel = some cell }) s.tasks e,
  task_refs-remove c task t s.tasks e,
  task_refs-remove cell task t s.tasks e,
)

module _ {C K E : Type 0} (to_str : C → Option String) (cstring : String → Option C)
    (show_io : E → String) (payload : Option String) (execute : Task → Option ℕ → Outcome E) where
  perform-Counted :
      (c : HandleCall C) (s u : Store C K)
      → perform to_str cstring show_io payload execute c s ≡ some u
      → Counted s
      → Counted u
  unfolding perform aer_task_new task_refs aer_task_free aer_cancel_free
  perform-Counted (task_new program args args_len box) s u e h c = ground (arith, h c)
  perform-Counted (make_cancel none box cell) s u e h c = subst Counted (some-injective _ _ e) h c
  perform-Counted (make_cancel (some task) box cell) s u e h c =
      elim (Option-cases (find task s.tasks)) [
        | inl dangling ↦ ground arith
        | inr (t, live) ↦ elim (Option-cases (find box s.cancels)) [
          | inl unused ↦ elim (Bool-cases (s.strong cell == 0)) [
            | inl free ↦
                let e' : make_cancel_on task box cell t s ≡ u = ground arith in
                let free' : s.strong cell ≡ 0 = ground arith in
                subst Counted e' (make_cancel_on-Counted task box cell t s live free' h) c
            | inr taken ↦ ground arith
          ]
          | inr (d, used) ↦ ground arith
        ]
      ]
  perform-Counted (on_task task request) s u e h c = elim (Option-cases (find task s.tasks)) [
    | inl dangling ↦ ground arith
    | inr (t, live) ↦
        elim (Option-cases (call to_str cstring show_io payload execute request (some t) s.msg).1) [
          | inl gone ↦ ground arith
          | inr (t', kept) ↦ ground (
            arith,
            h c,
            task_refs-replace c task t t' s.tasks live,
            call-cancel to_str cstring show_io payload execute request t t' s.msg kept,
          )
        ]
  ]
  perform-Counted (cancel none) s u e h c = subst Counted (some-injective _ _ e) h c
  perform-Counted (cancel (some box)) s u e h c = ground (arith, h c)
  perform-Counted (task_free none) s u e h c = subst Counted (some-injective _ _ e) h c
  perform-Counted (task_free (some task)) s u e h c = elim (Option-cases (find task s.tasks)) [
    | inl dangling ↦ ground arith
    | inr (t, live) ↦
        ground
          (arith, h c, task_refs-remove c task t s.tasks live, drop_clone-one t.cancel s.strong c)
  ]
  perform-Counted (cancel_free none) s u e h c = subst Counted (some-injective _ _ e) h c
  perform-Counted (cancel_free (some box)) s u e h c = elim (Option-cases (find box s.cancels)) [
    | inl dangling ↦ ground arith
    | inr (d, live) ↦
        ground (
          arith,
          h c,
          cancel_refs-remove c box d s.cancels live,
          drop_clone-one (some d) s.strong c,
        )
  ]

  performs-Counted :
      (calls : List (HandleCall C)) (s u : Store C K)
      → performs to_str cstring show_io payload execute calls s ≡ some u
      → Counted s
      → Counted u
  unfolding performs
  performs-Counted [] s u e h = subst Counted (some-injective _ _ e) h
  performs-Counted (c ∷ calls) s u e h =
      elim (Option-cases (perform to_str cstring show_io payload execute c s)) [
        | inl excluded ↦ ground arith
        | inr (v, step) ↦ performs-Counted calls v u (ground arith) (perform-Counted c s v step h)
      ]

  module _ (calls : List (HandleCall C)) (s : Store C K)
      (run : performs to_str cstring show_io payload execute calls (empty C K) ≡ some s) where
    performs-empty-Counted : Counted s
    unfolding empty task_refs cancel_refs
    performs-empty-Counted = performs-Counted calls (empty C K) s run (λ c. refl)

    -- After any sequence of calls that the contract allows, no live handle leads to freed memory: the
    -- cell behind each live cancel handle, and behind each live task that has one, is allocated.
    pub cells_live : (c : ℕ) → Refers c s → s.strong c ≢ 0
    cells_live c (inl (box, live)) freed =
        ground (arith, performs-empty-Counted c, cancel_refs-remove c box c s.cancels)
    cells_live c (inr (task, t, live, holds)) freed =
        ground (arith, performs-empty-Counted c, task_refs-remove c task t s.tasks)

    -- After any sequence of calls that the contract allows and that has freed every handle, every
    -- cell is freed: nothing leaks.
    pub cells_freed : s.tasks ≡ [] → s.cancels ≡ [] → (c : ℕ) → s.strong c ≡ 0
    unfolding task_refs cancel_refs
    cells_freed none_left none_held c = ground (arith, performs-empty-Counted c)
