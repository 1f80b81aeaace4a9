-- ===== src/Enums.antt =====
-- util/jni/Enum.h: how an enumerator of toxcore travels to Java and back as an ordinal. The enums
-- themselves are in the children, which follow the generated enums.cpp of the subsystems.
pub mod Status
pub mod Setup
pub mod Calls
pub mod All
use jvm_toxcore_c.Base.{
  ◌≡◌, ◌≢◌, Bool-cases, ltb, inl, inr, arith, ℕ, ◌≤◌, ◌<◌, ℤ, pos, negsuc, Text, codes,
}
use jvm_toxcore_c.Jni.{Outcome, returned, fatal, undefined}

-- What aborts the process on a value that is no enumerator.
abbrev pub from_toxcore : Text
from_toxcore = codes "Invalid enumerator from toxcore"

abbrev pub from_java : Text
from_java = codes "Invalid enumerator from Java"

-- `ordinal` and `valueOf` are inverse to one another, and the ordinals are the numbers below
-- `count`: any other value from Java aborts the process.
pub record IsEncoding {T : Type 0} (ordinal : T → Outcome ℤ) (value_of : ℤ → Outcome T) (count : ℕ)
    : Type 0 where
  pub decode : (t : T) (n : ℤ) → ordinal t ≡ returned n → value_of n ≡ returned t
  pub encode : (n : ℤ) (t : T) → value_of n ≡ returned t → ordinal t ≡ returned n
  pub accepted : (k : ℕ) → k < count → (t : T) × (value_of (pos k) ≡ returned t)
  pub too_large : (k : ℕ) → count ≤ k → value_of (pos k) ≡ fatal from_java
  pub negative : (k : ℕ) → value_of (negsuc k) ≡ fatal from_java

-- Reading an ordinal is never undefined.
pub IsEncoding-defined :
    {T : Type 0} {ordinal : T → Outcome ℤ} {value_of : ℤ → Outcome T} {count : ℕ}
    → IsEncoding ordinal value_of count
    → (n : ℤ) → value_of n ≢ undefined
IsEncoding-defined {value_of = value_of} {count = count} e (pos k) h =
    elim (Bool-cases (ltb k count)) [
      | inl below ↦ let (t, read) = e.accepted k (ground arith) in cc
      | inr above ↦ let read = e.too_large k (ground arith) in cc
    ]
IsEncoding-defined e (negsuc k) h = let read = e.negative k in cc
