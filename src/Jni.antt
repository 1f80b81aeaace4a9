-- ===== src/Jni.antt =====
-- The part of the Java native interface that the code uses: the pending exception, what a lookup in
-- the virtual machine answers, and how a native call ends.
pub mod Exceptions
pub mod Appends
use jvm_toxcore_c.Base.{◌≡◌, refl, Bool, Option, none, some, Text, codes, is_some, List, ℤ, ℕ}

-- An exception object.
pub data Throwable : Type 0 where
  -- from `ThrowNew`: the class, and the message
  message : Text → Text → Throwable
  -- a tox4j exception: its class, and the name of its error code
  tox_exception : Text → Text → Throwable
  -- thrown by the virtual machine itself during a lookup or a call
  from_vm : Text → Throwable

-- The Java side as the native code sees it, which is not part of this repository: for each lookup
-- or call, the exception that it leaves pending when it fails, and `none` when it succeeds.
pub record Jvm : Type 0 where
  -- `FindClass` by class name
  pub find_class : Text → Option Throwable
  -- `GetStaticMethodID` and `GetMethodID` by class name, method name and signature
  pub static_method : Text → Text → Text → Option Throwable
  pub method : Text → Text → Text → Option Throwable
  -- `valueOf` of an enum class on a constant's name
  pub value_of : Text → Text → Option Throwable
  -- `NewObject` of an exception class on the name of its code
  pub new_object : Text → Text → Option Throwable
  -- The classes that the code throws without a check of the lookup are on the class path: tox4j's own
  -- one, and that of the Java platform.
  pub killed_found : find_class (codes "im/tox/tox4j/exceptions/ToxKilledException") ≡ none
  pub illegal_state_found : find_class (codes "java/lang/IllegalStateException") ≡ none

-- `JNIEnv`: the virtual machine, and the exception that is pending in this thread.
pub record Env : Type 0 where
  pub jvm : Jvm
  pub pending : Option Throwable

-- `ExceptionCheck`
abbrev pub exception_check : Env → Bool
exception_check env = is_some env.pending

-- How a native function ends: it returns, `tox4j_fatal` aborts the process with a message, or its
-- behaviour is undefined (an index out of range, a null pointer that is dereferenced).
pub data Outcome {ℓ} (A : Type ℓ) : Type ℓ where
  returned : A → Outcome A
  fatal : Text → Outcome A
  undefined : Outcome A

infixl 5 ◌>>=◌ ◌>>◌
abbrev pub ◌>>=◌ {ℓ κ} : {A : Type ℓ} {B : Type κ} → Outcome A → (A → Outcome B) → Outcome B
returned a >>= f = f a
fatal m >>= f = fatal m
undefined >>= f = undefined

abbrev pub ◌>>◌ {ℓ} : {B : Type ℓ} → Outcome (Unit {0}) → Outcome B → Outcome B
m >> k = m >>= λ _. k

-- `tox4j_assert`; the text stands for the file, line and condition of the message.
abbrev pub tox4j_assert : Bool → Text → Outcome (Unit {0})
tox4j_assert Bool.true m = returned tt
tox4j_assert Bool.false m = fatal m

-- An array or string that Java passes: null, or its elements.
abbrev pub JavaArray : Type 0 → Type 0
JavaArray A = Option (List A)

-- The function returns, and its result satisfies `P`: neither the process is aborted nor is the
-- behaviour undefined.
abbrev pub Ensures {ℓ} : {A : Type ℓ} → Outcome A → (A → Type 0) → Type 0
Ensures (returned a) P = P a
Ensures (fatal m) P = ⊥
Ensures undefined P = ⊥

-- What holds of a chain of two calls.
pub Ensures-bind :
    {A B : Type 0} (x : Outcome A) (f : A → Outcome B) (P : A → Type 0) (Q : B → Type 0)
    → Ensures x P
    → ((a : A) → x ≡ returned a → P a → Ensures (f a) Q)
    → Ensures (x >>= f) Q
Ensures-bind (returned a) f P Q h k = k a refl h
Ensures-bind (fatal t) f P Q h k = h
Ensures-bind undefined f P Q h k = h

pub Ensures-map :
    {A : Type 0} (x : Outcome A) (P Q : A → Type 0)
    → Ensures x P
    → ((a : A) → P a → Q a)
    → Ensures x Q
Ensures-map (returned a) P Q h k = k a h
Ensures-map (fatal t) P Q h k = h
Ensures-map undefined P Q h k = h

pub Ensures-returned :
    {A : Type 0} (x : Outcome A) → Ensures x (λ _. Unit {0}) → (a : A) × (x ≡ returned a)
Ensures-returned (returned a) h = (a, refl)
Ensures-returned (fatal t) h = absurd h
Ensures-returned undefined h = absurd h
