-- ===== src/Ffi/Store/Examples.antt =====
-- Handles of src/ffi.rs at concrete addresses.
use aer_core.Base.{ℕ, String, false, ◌≡◌, ◌≢◌, refl, Option, none, some, List, [], ◌∷◌, inl}
use aer_core.Task.{Task, is_cancelled}
use aer_core.Run.System.{Outcome, panicked}
use aer_core.Ffi.Create.{aer_task_new}
use aer_core.Ffi.Run.{aer_task_make_cancel_handle, aer_cancel, aer_task_run}
use aer_core.Ffi.Frozen.{FfiCall, call}
use aer_core.Ffi.Store.{
  Store, empty, HandleCall, task_new, make_cancel, cancel, on_task, task_free, cancel_free, find,
  perform, performs, remove, replace, drop_clone, aer_task_free, aer_cancel_free,
}
use aer_core.Ffi.Store.Counts.{Refers, cells_live, cells_freed}
use aer_core.Ffi.Store.Aliases.{Holds, older_handle_detached}

abbrev text : String → Option String
text s = some s

abbrev show_number : ℕ → String
show_number n = "os error"

abbrev panics : Task → Option ℕ → Outcome ℕ
panics t handle = panicked

abbrev after : List (HandleCall String) → Option (Store String ℕ)
after calls = performs text text show_number none panics calls (empty String ℕ)

-- A task at 1 with a cancel handle at 2 for the cell 3.
abbrev opened : List (HandleCall String)
opened = task_new (some "sh") none 0 1 ∷ make_cancel (some 1) 2 3 ∷ []

abbrev closed : List (HandleCall String)
closed =
    task_new (some "sh") none 0 1
    ∷ make_cancel (some 1) 2 3
    ∷ on_task 1 FfiCall.run
    ∷ cancel (some 2)
    ∷ task_free (some 1)
    ∷ cancel_free (some 2)
    ∷ []

abbrev state : Option (Store String ℕ) → Store String ℕ
state none = record {
  tasks = [];
  cancels = [];
  strong = λ c. 0;
  cells = λ c. record { cancelled = false; kill_fired = false; kill = none; poisoned = false };
  msg = none;
}
state (some s) = s

-- A pointer that was freed is excluded.
freed_twice :
    after (task_new (some "sh") none 0 1 ∷ task_free (some 1) ∷ task_free (some 1) ∷ []) ≡ none
unfolding performs perform empty find remove aer_task_new drop_clone aer_task_free
freed_twice = refl

opened-runs : after opened ≡ some (state (after opened))
unfolding performs perform empty find replace aer_task_new aer_task_make_cancel_handle
opened-runs = refl

opened-Refers : Refers 3 (state (after opened))
unfolding performs perform empty find replace aer_task_new aer_task_make_cancel_handle
opened-Refers = inl (2, refl)

cells_live_example : (state (after opened)).strong 3 ≢ 0
cells_live_example =
    cells_live text text show_number none panics opened (state (after opened)) opened-runs 3
      opened-Refers

closed-runs : after closed ≡ some (state (after closed))
unfolding performs perform empty find remove replace aer_task_new aer_task_make_cancel_handle
    aer_task_run call aer_cancel drop_clone aer_task_free aer_cancel_free
closed-runs = refl

closed-tasks : (state (after closed)).tasks ≡ []
unfolding performs perform empty find remove replace aer_task_new aer_task_make_cancel_handle
    aer_task_run call aer_cancel drop_clone aer_task_free aer_cancel_free
closed-tasks = refl

closed-cancels : (state (after closed)).cancels ≡ []
unfolding performs perform empty find remove replace aer_task_new aer_task_make_cancel_handle
    aer_task_run call aer_cancel drop_clone aer_task_free aer_cancel_free
closed-cancels = refl

cells_freed_example : (state (after closed)).strong 3 ≡ 0
cells_freed_example =
    cells_freed text text show_number none panics closed (state (after closed)) closed-runs
      closed-tasks closed-cancels 3

abbrev next : HandleCall String → Store String ℕ → Option (Store String ℕ)
next = perform text text show_number none panics

abbrev created : Store String ℕ
created = state (after (task_new (some "sh") none 0 1 ∷ []))

abbrev handled : Store String ℕ
handled = state (next (make_cancel (some 1) 2 3) created)

abbrev rehandled : Store String ℕ
rehandled = state (next (make_cancel (some 1) 4 5) handled)

handled-made : next (make_cancel (some 1) 2 3) created ≡ some handled
unfolding performs perform empty find replace aer_task_new aer_task_make_cancel_handle
handled-made = refl

rehandled-made : next (make_cancel (some 1) 4 5) handled ≡ some rehandled
unfolding performs perform empty find replace aer_task_new aer_task_make_cancel_handle drop_clone
rehandled-made = refl

rehandled-cancelled :
    next (cancel (some 2)) rehandled ≡ some (state (next (cancel (some 2)) rehandled))
unfolding performs perform empty find replace aer_task_new aer_task_make_cancel_handle drop_clone
rehandled-cancelled = refl

older_handle_detached_example :
    let w = state (next (cancel (some 2)) rehandled) in
    Holds 1 5 w × (is_cancelled (w.cells 5) ≡ false)
older_handle_detached_example =
    older_handle_detached text text show_number none panics 1 2 3 4 5 created handled rehandled
      (state (next (cancel (some 2)) rehandled)) handled-made rehandled-made rehandled-cancelled
