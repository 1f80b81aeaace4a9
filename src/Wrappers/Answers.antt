-- ===== src/Wrappers/Answers.antt =====
-- What Java can rely on for every method that calls toxcore through the wrappers.
use jvm_toxcore_c.Base.{ℕ, List, ◌≡◌, ◌≢◌, refl, Bool, true, false, ℤ, Text, ◌⊎◌, inl, inr}
use jvm_toxcore_c.Jni.{
  Env, exception_check, Outcome, returned, fatal, undefined, ◌>>=◌, Ensures, Ensures-map, ◌>>◌,
  tox4j_assert,
}
use jvm_toxcore_c.Drain.{zeros}
use jvm_toxcore_c.Instances.{Manager, with_instance}
use jvm_toxcore_c.Instances.Valid.{IsValid}
use jvm_toxcore_c.Instances.View.{live, view, update}
use jvm_toxcore_c.Instances.Access.{
  Func, IsGone, live_cases, Ran, with_instance-live, with_instance-gone,
}
use jvm_toxcore_c.Errors.{ErrorType, Subsystem}
use jvm_toxcore_c.Errors.Faithful.{IsFaithful}
use jvm_toxcore_c.Errors.Results.{with_error_handling_lem}
use jvm_toxcore_c.Wrappers.{
  succeed, value_init, ErrCall, NoErrCall, err_on, with_instance_err, noerr_on, with_instance_noerr,
  with_instance_ign,
}

-- A call that fills a buffer of as many zeros as `size` names.
abbrev pub filled : {O : Type 0} → (O → ℕ) → (O → List ℕ → List ℕ) → NoErrCall O (List ℕ)
filled size fill tox = (fill tox (zeros (size tox)), tox)

-- On a number that is not live: the default with an exception, and nothing happened.
abbrev pub Refused : {O V B : Type 0} → B → ℤ → Manager O V → B × Env × Manager O V → Type 0
Refused default n m r =
    IsGone (view m n) × (r.0 ≡ default) × (exception_check r.1 ≡ true) × (r.2 ≡ m)

-- On a live one: `said` holds of the object, the result and the environment; the object is then what
-- `after` makes of it, with the pending events as before, and every other number is as it was.
abbrev pub Answered :
    {O V B : Type 0}
    → (O → B → Env → Type 0)
    → (O → O)
    → ℤ
    → Manager O V
    → B × Env × Manager O V
    → Type 0
Answered {O = O} {V = V} said after n m r =
    (tox : O) × (events : V) × (view m n ≡ live tox events)
    × said tox r.0 r.1
    × ((j : ℤ) → view r.2 j ≡ update n (λ _. live (after tox) events) (view m) j)

-- What Java is told of a call with an error code: with `ok`, what `to_java` makes of the value, and
-- no exception; with any other code, the default and an exception.
abbrev pub ErrSaid :
    {O E A B : Type 0} → B → E → (A → B) → ErrCall O E A → Env → O → B → Env → Type 0
ErrSaid default ok to_java call env tox b env' =
    (((call tox).1 ≡ ok) × (b ≡ to_java (call tox).0) × (env' ≡ env))
    ⊎ (((call tox).1 ≢ ok) × (b ≡ default) × (exception_check env' ≡ true))

abbrev pub NoErrSaid : {O A B : Type 0} → (A → B) → NoErrCall O A → Env → O → B → Env → Type 0
NoErrSaid to_java call env tox b env' = (b ≡ to_java (call tox).0) × (env' ≡ env)

-- A method returns a valid table and answers as the call `call` of toxcore says.
abbrev pub ErrAnswer :
    {O V E A B : Type 0}
    → B
    → E
    → (A → B)
    → ErrCall O E A
    → Env
    → ℤ
    → Manager O V
    → Outcome (B × Env × Manager O V)
    → Type 0
ErrAnswer default ok to_java call env n m x = Ensures x λ r.
    IsValid r.2
    × (Refused default n m r
        ⊎ Answered (ErrSaid default ok to_java call env) (λ tox. (call tox).2) n m r)

abbrev pub NoErrAnswer :
    {O V A B : Type 0}
    → B
    → (A → B)
    → NoErrCall O A
    → Env
    → ℤ
    → Manager O V
    → Outcome (B × Env × Manager O V)
    → Type 0
NoErrAnswer default to_java call env n m x = Ensures x λ r.
    IsValid r.2
    × (Refused default n m r ⊎ Answered (NoErrSaid to_java call env) (λ tox. (call tox).1) n m r)

module _ {O V B : Type 0} (func : Func O V B) (default : B) (said : Env → O → B → Env → Type 0)
    (after : O → O) where
  -- A function that returns, leaves the events alone, and does as `said` and `after` say.
  abbrev pub IsTame : Type 0
  IsTame =
      (o : O) (e : V) (env : Env)
      → (b : B) × (env' : Env) × (func o e env ≡ returned (b, after o, e, env')) × said env o b env'

  with_instance-tame :
      (env : Env) (n : ℤ) (m : Manager O V)
      → IsTame
      → IsValid m
      → Ensures
          (with_instance func default env n m)
          λ r. IsValid r.2 × (Refused default n m r ⊎ Answered (said env) after n m r)
  with_instance-tame env n m tame v = elim (live_cases (view m n)) [
    | inl (o, e, seen) ↦
        let (b, env', ran, told) = tame o e env in
        Ensures-map (with_instance func default env n m) (Ran b (after o) e env' n m)
          (λ r. IsValid r.2 × (Refused default n m r ⊎ Answered (said env) after n m r))
          (with_instance-live func default env n m o (after o) e e b env' v seen ran)
          λ r a. (a.2, inr (o, e, seen, rw a.0 (rw a.1 told), a.3))
    | inr gone ↦
        Ensures-map (with_instance func default env n m) _
          (λ r. IsValid r.2 × (Refused default n m r ⊎ Answered (said env) after n m r))
          (with_instance-gone func default env n m v gone)
          λ r a. (rw a.2 v, inl (gone, a.0, a.1, a.2))
  ]

module _ {O V E A B : Type 0} where
  pub err-Answers :
      {t : ErrorType E} {ok : E} {other : ℤ → E} (s : Subsystem) (to_java : A → B) (default : B)
      (call : ErrCall O E A) (env : Env) (n : ℤ) (m : Manager O V)
      → IsFaithful t ok other
      → IsValid m
      → ErrAnswer default ok to_java call env n m
          (with_instance_err s t to_java default call env n m)
  unfolding with_instance_err err_on
  err-Answers {t} {ok} {other} s to_java default call env n m f v =
      with_instance-tame (err_on s t to_java default call) default (ErrSaid default ok to_java call)
        (λ tox. (call tox).2) env n m
        (λ o e env.
          let (value, error, o') = call o in
          elim (with_error_handling_lem s t ok other (succeed to_java) (value_init default) env
            value error f) [
              | inl (won, ran) ↦ (to_java value, env, rw ran refl, inl (won, refl, refl))
              | inr (lost, (env', thrown, ran)) ↦
                  (default, env', rw ran refl, inr (lost, refl, thrown))
            ])
        v

module _ {O V A B : Type 0} where
  pub noerr-Answers :
      (to_java : A → B) (default : B) (call : NoErrCall O A) (env : Env) (n : ℤ) (m : Manager O V)
      → IsValid m
      → NoErrAnswer default to_java call env n m (with_instance_noerr to_java default call env n m)
  unfolding with_instance_noerr noerr_on
  noerr-Answers to_java default call env n m v =
      with_instance-tame (noerr_on to_java call) default (NoErrSaid to_java call)
        (λ tox. (call tox).1) env n m (λ o e env. (to_java (call o).0, env, refl, (refl, refl))) v

module _ {O V E A : Type 0} where
  pub ign-Answers :
      {t : ErrorType E} {ok : E} {other : ℤ → E} (s : Subsystem) (call : ErrCall O E A) (env : Env)
      (n : ℤ) (m : Manager O V)
      → IsFaithful t ok other
      → IsValid m
      → ErrAnswer tt ok (λ _. tt) call env n m (with_instance_ign s t call env n m)
  unfolding with_instance_ign
  ign-Answers s call env n m f v = err-Answers s (λ _. tt) tt call env n m f v

-- The outcome `x` of a method that asserts `b` first: it aborts exactly if `b` does not hold.
abbrev pub Checked : {X : Type 0} → Bool → Outcome X → Type 0 → Type 0
Checked b x P = ((b ≡ false) × ((t : Text) × (x ≡ fatal t))) ⊎ ((b ≡ true) × P)

pub asserted :
    {X : Type 0} (b : Bool) (t : Text) (x : Outcome X) (P : Outcome X → Type 0)
    → P x
    → Checked b (tox4j_assert b t >> x) (P (tox4j_assert b t >> x))
asserted true t x P h = inr (refl, h)
asserted false t x P h = inl (refl, (t, refl))

-- The outcome `x` of a method that reads an argument first: it aborts exactly if the reading does.
abbrev pub Reads : {X A : Type 0} → Outcome A → Outcome X → (A → Type 0) → Type 0
Reads {A = A} read x P =
    ((t : Text) × (read ≡ fatal t) × (x ≡ fatal t)) ⊎ ((a : A) × (read ≡ returned a) × P a)

pub reads :
    {X A : Type 0} (read : Outcome A) (x : A → Outcome X) (P : A → Outcome X → Type 0)
    → read ≢ undefined
    → ((a : A) → P a (x a))
    → Reads read (read >>= x) (λ a. P a (read >>= x))
reads (returned a) x P d h = inr (a, refl, h a)
reads (fatal t) x P d h = inl (t, refl, refl)
reads undefined x P d h = absurd (d refl)

module _ {O V E A B : Type 0} where
  -- What a call with an error code gives on a live instance, for a faithful translation: with the
  -- code OK it returns just what the success function makes of toxcore's value, without an
  -- exception, and with any other code the default, with an exception pending. Either way the object
  -- is what toxcore left, and the pending events and every other instance are as before.
  pub with_instance_err-outcome :
      (s : Subsystem) (t : ErrorType E) (ok : E) (other : ℤ → E) (success_func : A → B)
      (default : B) (tox_func : ErrCall O E A) (env : Env) (n : ℤ) (m : Manager O V) (tox : O)
      (events : V)
      → IsFaithful t ok other
      → IsValid m
      → view m n ≡ live tox events
      → Ensures (with_instance_err s t success_func default tox_func env n m) λ r.
        ((((tox_func tox).1 ≡ ok) × (r.0 ≡ success_func (tox_func tox).0) × (r.1 ≡ env))
          ⊎ (((tox_func tox).1 ≢ ok) × (r.0 ≡ default) × (exception_check r.1 ≡ true)))
        × ((j : ℤ) → view r.2 j ≡ update n (λ _. live (tox_func tox).2 events) (view m) j)
  unfolding with_instance_err err_on
  with_instance_err-outcome s t ok other success_func default tox_func env n m tox events f v seen =
      let (value, error, tox') = tox_func tox in
      let func = err_on s t success_func default tox_func in
      elim (with_error_handling_lem s t ok other (succeed success_func) (value_init default) env
        value error f) [
          | inl (won, ran) ↦
              Ensures-map (with_instance func default env n m) _ _
                (with_instance-live func default env n m tox tox' events events (success_func value)
                  env v seen (rw ran refl))
                λ r a. (inl (won, a.0, a.1), a.3)
          | inr (lost, (env', thrown, ran)) ↦
              Ensures-map (with_instance func default env n m) _ _
                (with_instance-live func default env n m tox tox' events events default env' v seen
                  (rw ran refl))
                λ r a. (inr (lost, a.0, rw a.1 thrown), a.3)
        ]
