-- ===== src/Ffi/Store.antt =====
-- The handles of src/ffi.rs as memory: boxed tasks, boxed cancel handles, and the shared cells behind
-- a `CancelHandle` with their `Arc` counts. A pointer is a number, `none` for NULL, and stands for
-- the box at that address. The three `Arc`s of one handle are cloned and dropped together, so one
-- count stands for them.
pub mod Counts
pub mod Aliases
mod Examples
use aer_core.Base.{
  update, ℕ, ◌+◌, ◌-◌, String, Bool, true, false, ◌≡◌, refl, ◌&&◌, Option, none, some, List, [],
  ◌∷◌, ◌==◌, if◌then◌else◌, arith,
}
use aer_core.Task.{Task, CancelHandle, new_handle}
use aer_core.Run.System.{Outcome}
use aer_core.Ffi.Handles.{AerTask}
use aer_core.Ffi.Create.{aer_task_new}
use aer_core.Ffi.Run.{aer_task_make_cancel_handle, aer_cancel}
use aer_core.Ffi.Frozen.{FfiCall, call}

module _ {ℓ} {A : Type ℓ} where
  unfoldable pub find : ℕ → List (ℕ × A) → Option A
  find p [] = none
  find p ((q, a) ∷ l) = if q == p then some a else find p l

  unfoldable pub remove : ℕ → List (ℕ × A) → List (ℕ × A)
  remove p [] = []
  remove p ((q, a) ∷ l) = if q == p then l else (q, a) ∷ remove p l

  unfoldable pub replace : ℕ → A → List (ℕ × A) → List (ℕ × A)
  replace p b [] = []
  replace p b ((q, a) ∷ l) = if q == p then (q, b) ∷ l else (q, a) ∷ replace p b l

abbrev pub is_none {ℓ} : {A : Type ℓ} → Option A → Bool
is_none none = true
is_none (some a) = false

-- `strong` is the count of each cell, 0 once it is freed; `msg` is the thread's last error.
pub record Store (C K : Type 0) : Type 0 where
  pub tasks : List (ℕ × AerTask ℕ)
  pub cancels : List (ℕ × ℕ)
  pub strong : ℕ → ℕ
  pub cells : ℕ → CancelHandle K
  pub msg : Option C

unfoldable pub empty : (C K : Type 0) → Store C K
unfolding new_handle
empty C K = record {
  tasks = [];
  cancels = [];
  strong = λ c. 0;
  cells = λ c. new_handle K;
  msg = none;
}

-- The calls of a C program. `box` and `cell` are the addresses that the allocator gives.
pub data HandleCall (C : Type 0) : Type 0 where
  task_new : (program : Option C) (args : Option (ℕ → Option C)) (args_len box : ℕ) → HandleCall C
  make_cancel : (task : Option ℕ) (box cell : ℕ) → HandleCall C
  on_task : (task : ℕ) → FfiCall C → HandleCall C
  cancel task_free cancel_free : Option ℕ → HandleCall C

-- The drop of a clone of a `CancelHandle`.
unfoldable pub drop_clone : Option ℕ → (ℕ → ℕ) → ℕ → ℕ
drop_clone none strong = strong
drop_clone (some c) strong = update strong c (strong c - 1)

-- The access of `CancelHandle::cancel` that lasts: `cancelled.swap(true)`. What else it does to a run
-- is the matter of Run/Canceller.antt.
abbrev pub request : {K : Type 0} → (ℕ → CancelHandle K) → ℕ → ℕ → CancelHandle K
request cells c = update cells c (record (cells c) { cancelled = true })

-- `aer_task_make_cancel_handle` on a live task: the new cell has two clones, and the assignment to
-- `t.cancel` drops the clone that was there.
make_cancel_on : {C K : Type 0} → (task box cell : ℕ) → AerTask ℕ → Store C K → Store C K
unfolding drop_clone new_handle aer_task_make_cancel_handle
make_cancel_on {K = K} task box cell t s = elim (aer_task_make_cancel_handle cell (some t)).1 [
  | none ↦ s
  | some t' ↦ record s {
    tasks = replace task t' s.tasks;
    cancels = (box, cell) ∷ s.cancels;
    strong = drop_clone t.cancel (update s.strong cell 2);
    cells = update s.cells cell (new_handle K);
  }
]

module _ {C K : Type 0} where
  -- `aer_task_free`: the drop of the box drops the clone in it
  unfoldable pub aer_task_free : Option ℕ → Store C K → Option (Store C K)
  unfolding find remove drop_clone
  aer_task_free none s = some s
  aer_task_free (some task) s = elim (find task s.tasks) [
    | none ↦ none
    | some t ↦
        some (record s { tasks = remove task s.tasks; strong = drop_clone t.cancel s.strong })
  ]

  -- `aer_cancel_free`
  unfoldable pub aer_cancel_free : Option ℕ → Store C K → Option (Store C K)
  unfolding find remove drop_clone
  aer_cancel_free none s = some s
  aer_cancel_free (some box) s = elim (find box s.cancels) [
    | none ↦ none
    | some c ↦
        some (record s { cancels = remove box s.cancels; strong = drop_clone (some c) s.strong })
  ]

  -- `aer_last_error_message`, `none` for NULL
  unfoldable pub aer_last_error_message : Store C K → Option C
  aer_last_error_message s = s.msg

module _ {C K E : Type 0} (to_str : C → Option String) (cstring : String → Option C)
    (show_io : E → String) (payload : Option String) (execute : Task → Option ℕ → Outcome E) where
  -- One call. `none` stands for what the contract of the interface or of the allocator excludes: a
  -- pointer to no live box, or a new address that is in use.
  unfoldable pub perform : HandleCall C → Store C K → Option (Store C K)
  unfolding find replace make_cancel_on aer_task_new call aer_cancel aer_task_free aer_cancel_free
  perform (task_new program args args_len box) s =
      elim (aer_task_new to_str program args args_len) [
        | none ↦ some s
        | some t ↦
            if is_none (find box s.tasks)
            then some (record s { tasks = (box, t) ∷ s.tasks })
            else none
      ]
  perform (make_cancel none box cell) s = some s
  perform (make_cancel (some task) box cell) s = elim (find task s.tasks) [
    | none ↦ none
    | some t ↦
        if is_none (find box s.cancels) && s.strong cell == 0
        then some (make_cancel_on task box cell t s)
        else none
  ]
  perform (on_task task c) s = elim (find task s.tasks) [
    | none ↦ none
    | some t ↦
        let (code, after, msg) = call to_str cstring show_io payload execute c (some t) s.msg in
        elim after [
          | none ↦ none
          | some t' ↦ some (record s { tasks = replace task t' s.tasks; msg = msg })
        ]
  ]
  perform (cancel none) s = some s
  perform (cancel (some box)) s = elim (find box s.cancels) [
    | none ↦ none
    | some c ↦
        let (code, cells, msg) =
          aer_cancel (λ c (cells : ℕ → CancelHandle K). request cells c) (some c) s.cells s.msg in
        some (record s { cells = cells; msg = msg })
  ]
  perform (task_free task) s = aer_task_free task s
  perform (cancel_free box) s = aer_cancel_free box s

  unfoldable pub performs : List (HandleCall C) → Store C K → Option (Store C K)
  unfolding perform
  performs [] s = some s
  performs (c ∷ calls) s = elim (perform c s) [ none ↦ none | some u ↦ performs calls u ]
