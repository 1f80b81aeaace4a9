-- ===== src/Errors.antt =====
-- tox4j/ToxInstances.h: the translation of tox error codes to Java exceptions. The codes themselves,
-- and what each becomes, are in the children, which follow the generated errors.cpp of the
-- subsystems.
pub mod Faithful
pub mod Core
pub mod Av
pub mod Crypto
pub mod Results
use Prim.Native.String.{String}
use jvm_toxcore_c.Base.{Option, none, some, ℤ, Text, codes}
use jvm_toxcore_c.Jni.{Env, Outcome, returned}
use jvm_toxcore_c.Jni.Exceptions.{throw_tox_exception, throw_illegal_state_exception}

-- `ErrorHandling::Result`
pub data Result : Type 0 where
  unhandled_result success_result failure_result : Result

pub record ErrorHandling : Type 0 where
  pub result : Result
  pub error : Option Text

abbrev pub success : ErrorHandling
success = record { result = success_result; error = none }

abbrev pub failure : Text → ErrorHandling
failure error = record { result = failure_result; error = some error }

abbrev pub unhandled : ErrorHandling
unhandled = record { result = unhandled_result; error = none }

-- `failure_case`, on the stringified name of the code.
unfoldable pub failure_case : String → ErrorHandling
unfolding codes
failure_case name = failure (codes name)

-- What `HANDLE` defines for the error enum `E` of one method: the name for exceptions, and
-- `handle_error_enum`. `value` is the enumerator as a `jint`; the headers of toxcore number the
-- enumerators, so it is exact for the ones that errors.cpp does not list, and 0 for the others.
pub record ErrorType (E : Type 0) : Type 0 where
  pub method_name : Text
  pub handle_error_enum : E → ErrorHandling
  pub value : E → ℤ

-- `module_name` and `exn_prefix` of Tox, ToxAV and ToxCrypto.
pub record Subsystem : Type 0 where
  pub module_name : Text
  pub exn_prefix : Text

unfoldable pub core_subsystem : Subsystem
core_subsystem = record { module_name = codes "core"; exn_prefix = codes "" }

unfoldable pub av_subsystem : Subsystem
av_subsystem = record { module_name = codes "av"; exn_prefix = codes "av" }

unfoldable pub crypto_subsystem : Subsystem
crypto_subsystem = record { module_name = codes "crypto"; exn_prefix = codes "" }

module _ {E : Type 0} (s : Subsystem) (t : ErrorType E) where
  -- `throw_tox_exception` by the name of the code.
  unfoldable pub throw_by_name : Env → Text → Env
  throw_by_name env error = throw_tox_exception env s.module_name s.exn_prefix t.method_name error

  throw_result : Env → E → Result → Option Text → Env
  throw_result env error failure_result (some name) = throw_by_name env name
  throw_result env error failure_result none = env
  throw_result env error success_result name =
      throw_illegal_state_exception env (t.value error) (codes "Throwing OK code")
  throw_result env error unhandled_result name =
      throw_illegal_state_exception env (t.value error) (codes "Unknown error code")

  -- `throw_tox_exception` by the code.
  unfoldable pub throw_by_code : Env → E → Env
  unfolding throw_result
  throw_by_code env error =
      let h = t.handle_error_enum error in throw_result env error h.result h.error

  handle_result {ℓ} :
      {A : Type 0} {R : Type ℓ}
      → (A → Env → Outcome R)
      → (Env → R)
      → Env
      → A
      → E
      → Result
      → Option Text
      → Outcome R
  handle_result success_func default env value error success_result name = success_func value env
  handle_result success_func default env value error failure_result (some name) =
      returned (default (throw_by_name env name))
  handle_result success_func default env value error failure_result none = returned (default env)
  handle_result success_func default env value error unhandled_result name =
      returned
        (default (throw_illegal_state_exception env (t.value error) (codes "Unknown error code")))

  -- What `with_error_handling` does with the value and the error code that the tox function gave:
  -- `default` makes the value-initialised result of an environment.
  unfoldable pub with_error_handling {ℓ} :
      {A : Type 0} {R : Type ℓ} → (A → Env → Outcome R) → (Env → R) → Env → A → E → Outcome R
  unfolding handle_result
  with_error_handling success_func default env value error =
      let h = t.handle_error_enum error in
      handle_result success_func default env value error h.result h.error
