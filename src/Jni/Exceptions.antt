-- ===== src/Jni/Exceptions.antt =====
-- util/exceptions.cpp: building and throwing Java exceptions.
use jvm_toxcore_c.Base.{
  ◌≡◌, refl, true, Option, none, some, ◌++◌, List, [], ◌∷◌, ℤ, Text, codes, to_string_ℤ,
}
use jvm_toxcore_c.Jni.{Throwable, message, tox_exception, Env, exception_check}

-- `fullMessage`
unfoldable pub full_message : ℤ → Text → Text
full_message instance_number m = m ++ codes ", instance_number = " ++ to_string_ℤ instance_number

-- A failed lookup leaves its own exception pending.
abbrev raise : Env → Throwable → Env
raise env t = record env { pending = some t }

-- `throw_exception`. The result of `FindClass` is passed on without a check, so that the behaviour is
-- defined only for a class that is found.
unfoldable pub throw_exception :
    (env : Env) → ℤ → (class_name : Text) → env.jvm.find_class class_name ≡ none → Text → Env
throw_exception env instance_number class_name found m =
    raise env (message class_name (full_message instance_number m))

unfoldable pub throw_tox_killed_exception : Env → ℤ → Text → Env
unfolding throw_exception
throw_tox_killed_exception env instance_number m =
    throw_exception env instance_number (codes "im/tox/tox4j/exceptions/ToxKilledException")
      env.jvm.killed_found m

unfoldable pub throw_illegal_state_exception : Env → ℤ → Text → Env
unfolding throw_exception
throw_illegal_state_exception env instance_number m =
    throw_exception env instance_number (codes "java/lang/IllegalStateException")
      env.jvm.illegal_state_found m

-- `className` in `throw_tox_exception`
abbrev pub tox_class_name : Text → Text → Text → Text
tox_class_name subsystem prefix method =
    codes "im/tox/tox4j/"
    ++ (subsystem ++ (codes "/exceptions/Tox" ++ (prefix ++ (method ++ codes "Exception"))))

-- `throw_tox_exception` returns at the first lookup that fails, whose exception is then pending;
-- when all succeed it throws `t`.
abbrev first_failure : List (Option Throwable) → Throwable → Throwable
first_failure [] t = t
first_failure (some failure ∷ lookups) t = failure
first_failure (none ∷ lookups) t = first_failure lookups t

-- The checks that `enumCode` and `exception` are not null always pass: both calls answer null only
-- with an exception pending.
unfoldable pub throw_tox_exception : Env → Text → Text → Text → Text → Env
throw_tox_exception env subsystem prefix method code = raise env (
    first_failure
      (find_class class_name
        ∷ find_class enum_name
        ∷ static_method enum_name (codes "valueOf") value_of_sig
        ∷ jvm_method class_name (codes "<init>") constructor_sig
        ∷ value_of enum_name code
        ∷ new_object class_name code
        ∷ [])
      (tox_exception class_name code))
  where
    open env.jvm use {find_class, static_method, method as jvm_method, value_of, new_object}

    class_name : Text
    class_name = tox_class_name subsystem prefix method

    enum_name : Text
    enum_name = class_name ++ codes "$Code"

    value_of_sig : Text
    value_of_sig = codes "(Ljava/lang/String;)L" ++ (enum_name ++ codes ";")

    constructor_sig : Text
    constructor_sig = codes "(L" ++ (enum_name ++ codes ";)V")

pub throw_illegal_state_exception-pending :
    (env : Env) (n : ℤ) (m : Text) → exception_check (throw_illegal_state_exception env n m) ≡ true
unfolding throw_illegal_state_exception
throw_illegal_state_exception-pending env n m = refl

pub throw_tox_killed_exception-pending :
    (env : Env) (n : ℤ) (m : Text) → exception_check (throw_tox_killed_exception env n m) ≡ true
unfolding throw_tox_killed_exception
throw_tox_killed_exception-pending env n m = refl

-- Throwing a tox exception always leaves an exception pending: the tox exception itself, or the one
-- of the first lookup or call that failed.
pub throw_tox_exception-pending :
    (env : Env) (subsystem prefix method code : Text)
    → exception_check (throw_tox_exception env subsystem prefix method code) ≡ true
unfolding throw_tox_exception
throw_tox_exception-pending env subsystem prefix method code = refl
