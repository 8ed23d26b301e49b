-- ===== src/Errors.antt =====
-- sdk/python/src/usmp/errors.py: the exception classes, their codes, the `except` tests that the SDK
-- makes on them, and the result of code that may raise. Messages and causes are not modelled.
use usmp.Prelude.{◌≡◌, refl, Bool, true, false, Option, none, some}

-- `USMPErrorCode` of types.py, by its numbers.
pub data ErrorCode : Type 0 where
  invalid_arg transport_failed auth_failed timeout replay_detected : ErrorCode
  buffer_overflow crypto_failed not_connected : ErrorCode

-- The classes of errors.py, then the built-in ones that the SDK raises or catches:
-- `asyncio.IncompleteReadError` is an `EOFError`, `ConnectionResetError` an `OSError`, and
-- `asyncio.TimeoutError` is the built-in `TimeoutError`.
pub data Error : Type 0 where
  usmp_error frame_error crc_error magic_error version_error payload_error : Error
  handshake_error auth_error crypto_error sequence_error usmp_timeout_error : Error
  connection_closed_error not_connected_error : Error
  value_error struct_error os_error connection_reset_error eof_error : Error
  incomplete_read_error runtime_error overflow_error builtin_timeout_error : Error

-- The class attribute `code`; the built-in exceptions have none.
unfoldable pub code : Error → Option ErrorCode
code Error.usmp_error = some invalid_arg
code Error.frame_error = some invalid_arg
code Error.crc_error = some transport_failed
code Error.magic_error = some invalid_arg
code Error.version_error = some invalid_arg
code Error.payload_error = some buffer_overflow
code Error.handshake_error = some auth_failed
code Error.auth_error = some auth_failed
code Error.crypto_error = some crypto_failed
code Error.sequence_error = some replay_detected
code Error.usmp_timeout_error = some timeout
code Error.connection_closed_error = some transport_failed
code Error.not_connected_error = some not_connected
code _ = none

-- `isinstance(e, FrameError)`.
abbrev pub is_frame_error : Error → Bool
is_frame_error Error.frame_error = true
is_frame_error Error.crc_error = true
is_frame_error Error.magic_error = true
is_frame_error Error.version_error = true
is_frame_error Error.payload_error = true
is_frame_error _ = false

-- `isinstance(e, HandshakeError)`.
abbrev pub is_handshake_error : Error → Bool
is_handshake_error Error.handshake_error = true
is_handshake_error Error.auth_error = true
is_handshake_error _ = false

-- `isinstance(e, USMPError)`.
abbrev pub is_usmp_error : Error → Bool
is_usmp_error Error.value_error = false
is_usmp_error Error.struct_error = false
is_usmp_error Error.os_error = false
is_usmp_error Error.connection_reset_error = false
is_usmp_error Error.eof_error = false
is_usmp_error Error.incomplete_read_error = false
is_usmp_error Error.runtime_error = false
is_usmp_error Error.overflow_error = false
is_usmp_error Error.builtin_timeout_error = false
is_usmp_error _ = true

-- `isinstance(e, OSError)`; the built-in `TimeoutError` is one.
abbrev pub is_os_error : Error → Bool
is_os_error Error.os_error = true
is_os_error Error.connection_reset_error = true
is_os_error Error.builtin_timeout_error = true
is_os_error _ = false

-- `isinstance(e, SequenceError)`, `isinstance(e, ValueError)`, `isinstance(e, struct.error)`.
abbrev pub is_sequence_error : Error → Bool
is_sequence_error Error.sequence_error = true
is_sequence_error _ = false

abbrev pub is_value_error : Error → Bool
is_value_error Error.value_error = true
is_value_error _ = false

abbrev pub is_struct_error : Error → Bool
is_struct_error Error.struct_error = true
is_struct_error _ = false

-- Code that may raise: the exception, or the value.
pub data Result {ℓ} (Value : Type ℓ) : Type ℓ where
  err : Error → Result Value
  ok : Value → Result Value

infixl 5 ◌>>=◌ ◌>>◌
abbrev pub ◌>>=◌ {ℓ κ} : {A : Type ℓ} {B : Type κ} → Result A → (A → Result B) → Result B
err raised >>= next = err raised
ok value >>= next = next value

abbrev pub ◌>>◌ {ℓ} : {B : Type ℓ} → Result (Unit {0}) → Result B → Result B
check >> next = check >>= λ passed. next

-- `if test: raise e`.
abbrev pub raise_if : Bool → Error → Result (Unit {0})
raise_if true e = err e
raise_if false e = ok tt

pub >>=-eq-ok {ℓ κ} :
    {A : Type ℓ} {B : Type κ} (call : Result A) (next : A → Result B) {result : B}
    → (call >>= next) ≡ ok result
    → (value : A) × (call ≡ ok value) × (next value ≡ ok result)
>>=-eq-ok (err raised) next h = cc
>>=-eq-ok (ok value) next h = (value, refl, h)

-- A guarded computation that succeeds has passed its guard.
pub raise_if-eq-ok {ℓ} :
    {A : Type ℓ} (test : Bool) (e : Error) (next : Result A) {result : A}
    → (raise_if test e >>= λ passed. next) ≡ ok result
    → (test ≡ false) × (next ≡ ok result)
raise_if-eq-ok true e next h = cc
raise_if-eq-ok false e next h = (refl, h)
