-- ===== src/Base/Int.antt =====
-- Signed integers over the native numbers, and the casts between Java's signed integers and the
-- unsigned words of C: `jint` and `jlong` are values of `ℤ` in range, `uint8_t`, `uint16_t`,
-- `uint32_t`, `uint64_t` and `size_t` (of 64 bits) are numbers below a power of two.
use Prim.Native.Nat.{ℕ, suc, ◌-◌, ◌%◌, ◌^◌, ◌<◌}
use mathlib.Core.Path.{◌≡◌}
use mathlib.Core.Logic.{◌↔◌}
use mathlib.Core.Bool.{Bool, true, false}
use native.Mathlib.Omega.{arith}
use jvm_toxcore_c.Base.Tests.{ltb, leb, ◌==◌, if◌then◌else◌}

-- `negsuc n` is -(n + 1).
pub data ℤ : Type 0 where
  pos : ℕ → ℤ
  negsuc : ℕ → ℤ

infix 50 ◌==ℤ◌
abbrev pub ◌==ℤ◌ : ℤ → ℤ → Bool
pos a ==ℤ pos b = a == b
negsuc a ==ℤ negsuc b = a == b
_ ==ℤ _ = false

abbrev pub is_negative : ℤ → Bool
is_negative (pos _) = false
is_negative (negsuc _) = true

-- `a <= k` for a signed `a` and a number `k`.
abbrev pub leb_ℤ : ℤ → ℕ → Bool
leb_ℤ (pos n) k = leb n k
leb_ℤ (negsuc _) k = true

-- `std::abs`, on values that have one.
abbrev pub abs : ℤ → ℕ
abs (pos n) = n
abs (negsuc n) = suc n

-- The cast of a signed integer to an unsigned word of `m` values: its residue.
abbrev pub to_word : ℕ → ℤ → ℕ
to_word m (pos n) = n % m
to_word m (negsuc n) = m - 1 - n % m

abbrev pub u8 : ℤ → ℕ
u8 = to_word (2 ^ 8)

abbrev pub u16 : ℤ → ℕ
u16 = to_word (2 ^ 16)

abbrev pub u32 : ℤ → ℕ
u32 = to_word (2 ^ 32)

abbrev pub u64 : ℤ → ℕ
u64 = to_word (2 ^ 64)

-- The cast of an unsigned value to a `jint` (two's complement of 32 bits).
abbrev pub to_jint : ℕ → ℤ
to_jint n = let w = n % 2 ^ 32 in if ltb w (2 ^ 31) then pos w else negsuc (2 ^ 32 - 1 - w)

pub ==ℤ_iff : (a b : ℤ) → ((a ==ℤ b) ≡ true) ↔ (a ≡ b)
==ℤ_iff (pos a) (pos b) = ground arith
==ℤ_iff (negsuc a) (negsuc b) = ground arith
==ℤ_iff (pos a) (negsuc b) = ground arith
==ℤ_iff (negsuc a) (pos b) = ground arith

pub to_jint_small : (n : ℕ) → n < 2 ^ 31 → to_jint n ≡ pos n
to_jint_small n h = ground arith

-- A value that Java can hold survives the way through an unsigned word and back.
pub to_jint-u32 : (n : ℕ) → n < 2 ^ 31 → to_jint (u32 (pos n)) ≡ pos n
to_jint-u32 n h = ground arith
