-- ===== src/Wrappers.antt =====
-- tox4j/ToxInstances.h: how a method from Java calls a function of toxcore on an instance. The
-- function of toxcore is an argument: it gives its value, its error code where it has one, and the
-- object afterwards.
pub mod Answers
use jvm_toxcore_c.Base.{ℤ}
use jvm_toxcore_c.Jni.{Env, Outcome, returned, ◌>>=◌}
use jvm_toxcore_c.Instances.{Manager, with_instance}
use jvm_toxcore_c.Errors.{ErrorType, Subsystem, with_error_handling}

-- A method that runs on an instance and gives its result, the environment and the table.
abbrev pub Method : Type 0 → Type 0 → Type 0 → Type 0
Method O V B = Env → ℤ → Manager O V → Outcome (B × Env × Manager O V)

-- A call of toxcore with an error code, and one that can not fail.
abbrev pub ErrCall : Type 0 → Type 0 → Type 0 → Type 0
ErrCall O E A = O → A × E × O

abbrev pub NoErrCall : Type 0 → Type 0 → Type 0
NoErrCall O A = O → A × O

module _ {A B : Type 0} where
  -- The success function and the value-initialised result, with the environment.
  abbrev pub succeed : (A → B) → A → Env → Outcome (B × Env)
  succeed success_func value env = returned (success_func value, env)

abbrev pub value_init : {B : Type 0} → B → Env → B × Env
value_init default env = (default, env)

module _ {O V E A B : Type 0} where
  -- The function that `with_instance_err` runs on the pair.
  err_on :
      Subsystem
      → ErrorType E
      → (A → B)
      → B
      → ErrCall O E A
      → O
      → V
      → Env
      → Outcome (B × O × V × Env)
  err_on s t success_func default tox_func tox events env =
      let (value, error, tox') = tox_func tox in
      (with_error_handling s t (succeed success_func) (value_init default) env value error) >>= λ r.
      returned (r.0, tox', events, r.1)

  -- `default` is `return_type ()`, for `with_instance` and for `with_error_handling`.
  pub with_instance_err : Subsystem → ErrorType E → (A → B) → B → ErrCall O E A → Method O V B
  unfolding err_on
  with_instance_err s t success_func default tox_func env n m =
      with_instance (err_on s t success_func default tox_func) default env n m

module _ {O V A B : Type 0} where
  noerr_on : (A → B) → NoErrCall O A → O → V → Env → Outcome (B × O × V × Env)
  noerr_on to_java tox_func tox events env =
      let (value, tox') = tox_func tox in returned (to_java value, tox', events, env)

  -- `to_java` is the conversion of the function's value to a Java value.
  pub with_instance_noerr : (A → B) → B → NoErrCall O A → Method O V B
  unfolding noerr_on
  with_instance_noerr to_java default tox_func env n m =
      with_instance (noerr_on to_java tox_func) default env n m

module _ {O V E A : Type 0} where
  pub with_instance_ign : Subsystem → ErrorType E → ErrCall O E A → Method O V (Unit {0})
  unfolding with_instance_err
  with_instance_ign s t tox_func = with_instance_err s t (λ _. tt) tt tox_func
