-- ===== src/Ffi/Create.antt =====
-- `aer_task_new` of src/ffi.rs. `to_str` is `CStr::to_str` of std.
use aer_core.Base.{
  ℕ, zero, suc, ◌+◌, ◌≤◌, String, false, ◌≡◌, refl, ap, sym, subst, ◌↔◌, Option, none, some, List,
  [], ◌∷◌, ltb, if◌then◌else◌, arith,
}
use mathlib.Core.Option.{some-injective}
use aer_core.Task.{new}
use aer_core.Ffi.Handles.{AerTask, max_args_len}

infixl 5 ◌>>=◌
abbrev ◌>>=◌ {ℓ κ} : {A : Type ℓ} {B : Type κ} → Option A → (A → Option B) → Option B
none >>= f = none
some a >>= f = f a

bind_eq_some {ℓ κ} :
    {A : Type ℓ} {B : Type κ} (m : Option A) (f : A → Option B) {b : B}
    → (m >>= f) ≡ some b
    → (a : A) × (m ≡ some a) × (f a ≡ some b)
bind_eq_some none f h = cc
bind_eq_some (some a) f h = (a, refl, h)

module _ {C : Type 0} (to_str : C → Option String) where
  -- the loop over `args`, from index `i` on; `none` is the return of NULL
  collect_args : (ℕ → Option C) → ℕ → ℕ → Option (List String)
  collect_args args i zero = some []
  collect_args args i (suc n) = do
    arg_ptr ← args i
    arg ← to_str arg_ptr
    rest ← collect_args args (i + 1) n
    some (arg ∷ rest)

  -- `args` is NULL or reads the pointer at each index.
  read_args : Option (ℕ → Option C) → ℕ → Option (List String)
  unfolding collect_args
  read_args none args_len = if ltb 0 args_len then none else some []
  read_args (some args) args_len = collect_args args 0 args_len

  -- `aer_task_new`
  unfoldable pub aer_task_new :
      {H : Type 0} → Option C → Option (ℕ → Option C) → ℕ → Option (AerTask H)
  unfolding read_args
  aer_task_new program args args_len = do
    program_ptr ← program
    program_str ← to_str program_ptr
    arg_strings ← if ltb max_args_len args_len then none else read_args args args_len
    some (record { inner = some (new program_str arg_strings); has_run = false; cancel = none })

  -- The strings that an array of `n` pointers from index `i` on holds.
  abbrev pub Holds : (ℕ → Option C) → ℕ → ℕ → List String → Type 0
  Holds args i zero l = l ≡ []
  Holds args i (suc n) [] = ⊥
  Holds args i (suc n) (s ∷ l) =
      ((p : C) × (args i ≡ some p) × (to_str p ≡ some s)) × Holds args (i + 1) n l

  -- The strings that the arguments of `aer_task_new` hold.
  abbrev pub IsArray : Option (ℕ → Option C) → ℕ → List String → Type 0
  IsArray none n l = (n ≡ 0) × (l ≡ [])
  IsArray (some args) n l = Holds args 0 n l

  collect_args-Holds :
      (args : ℕ → Option C) (i n : ℕ) (l : List String)
      → collect_args args i n ≡ some l
      → Holds args i n l
  unfolding collect_args
  collect_args-Holds args i zero l h = ground arith
  collect_args-Holds args i (suc n) l h =
      let (p, at, h₁) = bind_eq_some (args i) _ h in
      let (arg, text, h₂) = bind_eq_some (to_str p) _ h₁ in
      let (rest, tail, h₃) = bind_eq_some (collect_args args (i + 1) n) _ h₂ in
      subst (Holds args i (suc n)) (some-injective _ _ h₃)
        ((p, at, text), collect_args-Holds args (i + 1) n rest tail)

  -- What a task must be that `aer_task_new` has made of its arguments.
  abbrev pub IsMadeFrom : {H : Type 0} → Option C → Option (ℕ → Option C) → ℕ → AerTask H → Type 0
  IsMadeFrom program args args_len t =
      (p : C) × (prog : String) × (arguments : List String) × (program ≡ some p)
      × (to_str p ≡ some prog)
      × (args_len ≤ max_args_len)
      × IsArray args args_len arguments
      × (t ≡ record { inner = some (new prog arguments); has_run = false; cancel = none })

  read_args-IsArray :
      (args : Option (ℕ → Option C)) (n : ℕ) (l : List String)
      → read_args args n ≡ some l
      → IsArray args n l
  unfolding read_args
  read_args-IsArray none n l h = ground arith
  read_args-IsArray (some args) n l h = collect_args-Holds args 0 n l h

  pub aer_task_new-IsMadeFrom :
      {H : Type 0} (program : Option C) (args : Option (ℕ → Option C)) (args_len : ℕ)
      (t : AerTask H)
      → aer_task_new program args args_len ≡ some t
      → IsMadeFrom program args args_len t
  unfolding aer_task_new
  aer_task_new-IsMadeFrom program args args_len t h =
      let (p, given, h₁) = bind_eq_some program _ h in
      let (prog, text, h₂) = bind_eq_some (to_str p) _ h₁ in
      let (arguments, all, h₃) =
        bind_eq_some (if ltb max_args_len args_len then none else read_args args args_len) _ h₂ in
      (
        p,
        prog,
        arguments,
        given,
        text,
        ground arith,
        read_args-IsArray args args_len arguments (ground arith),
        sym (some-injective _ _ h₃),
      )

  Holds-collect_args :
      (args : ℕ → Option C) (i n : ℕ) (l : List String)
      → Holds args i n l
      → collect_args args i n ≡ some l
  unfolding collect_args
  Holds-collect_args args i zero l h = ap some (sym h)
  Holds-collect_args args i (suc n) [] h = absurd h
  Holds-collect_args args i (suc n) (s ∷ l) ((p, at, text), h) =
      rw (at, text, Holds-collect_args args (i + 1) n l h, collect_args) refl

  IsArray-read_args :
      (args : Option (ℕ → Option C)) (n : ℕ) (l : List String)
      → IsArray args n l
      → read_args args n ≡ some l
  unfolding read_args
  IsArray-read_args none n l h = ground arith
  IsArray-read_args (some args) n l h = Holds-collect_args args 0 n l h

  -- `aer_task_new` returns a handle exactly if the program is a valid string, there are `MAX_ARGS_LEN`
  -- arguments at most, with NULL for the array only if there are none, and each of them is a valid
  -- string; and the task behind it has not run, has no cancel handle and has exactly that program,
  -- those arguments in order and the default configuration.
  pub aer_task_new_iff :
      {H : Type 0} (program : Option C) (args : Option (ℕ → Option C)) (args_len : ℕ)
      (t : AerTask H)
      → (aer_task_new program args args_len ≡ some t) ↔ IsMadeFrom program args args_len t
  unfolding aer_task_new
  aer_task_new_iff program args args_len t = (
    aer_task_new-IsMadeFrom program args args_len t,
    λ made.
        let (p, prog, arguments, given, text, few, all, is_task) = made in
        let fits : ltb max_args_len args_len ≡ false = ground arith in
        rw (given, text, fits, IsArray-read_args args args_len arguments all, is_task, aer_task_new)
          refl,
  )
