-- ===== src/Ffi/Codes.antt =====
-- The error codes of src/ffi.rs and the thread-local error message.
use aer_core.Base.{ℕ, String, Option, none}
use aer_core.Error.{AerError, show_error}

-- `enum AerErrorCode`
pub data AerErrorCode : Type 0 where
  ok null_pointer spawn_failed wait_failed invalid_state_transition timed_out : AerErrorCode
  kill_failed already_run panic cancelled invalid_argument : AerErrorCode

-- the discriminants, which are stable ABI
unfoldable pub code_value : AerErrorCode → ℕ
code_value AerErrorCode.ok = 0
code_value AerErrorCode.null_pointer = 1
code_value AerErrorCode.spawn_failed = 2
code_value AerErrorCode.wait_failed = 3
code_value AerErrorCode.invalid_state_transition = 4
code_value AerErrorCode.timed_out = 5
code_value AerErrorCode.kill_failed = 6
code_value AerErrorCode.already_run = 7
code_value AerErrorCode.panic = 8
code_value AerErrorCode.cancelled = 9
code_value AerErrorCode.invalid_argument = 10

-- the `match` of `map_aer_error`
unfoldable pub error_code {ℓ} : {E : Type ℓ} → AerError E → AerErrorCode
error_code (AerError.spawn_failed e) = AerErrorCode.spawn_failed
error_code (AerError.wait_failed e) = AerErrorCode.wait_failed
error_code (AerError.invalid_state_transition from to) = AerErrorCode.invalid_state_transition
error_code AerError.timed_out = AerErrorCode.timed_out
error_code (AerError.kill_failed e) = AerErrorCode.kill_failed
error_code AerError.cancelled = AerErrorCode.cancelled

-- `set_last_error`. `cstring` is `CString::new(msg).ok()` of std, which fails on an embedded NUL.
unfoldable pub set_last_error {ℓ} : {C : Type ℓ} → (String → Option C) → String → Option C
set_last_error cstring msg = cstring msg

-- `clear_last_error`
unfoldable pub clear_last_error {ℓ} : {C : Type ℓ} → Option C
clear_last_error = none

-- `map_aer_error`: the code, and the message that it stores
unfoldable pub map_aer_error {ℓ κ} :
    {C : Type ℓ} {E : Type κ}
    → (String → Option C)
    → (E → String)
    → AerError E
    → AerErrorCode × Option C
unfolding set_last_error error_code
map_aer_error cstring show_io e = (error_code e, set_last_error cstring (show_error show_io e))
