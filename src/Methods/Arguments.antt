-- ===== src/Methods/Arguments.antt =====
-- What the methods of ToxCore pass to toxcore of the ports, keys and sizes that Java gives them.
use jvm_toxcore_c.Base.{
  ℕ, u64, Bool, ltb, ◌≡◌, refl, Bool, true, inl, inr, ◌⊎◌, codes, ℤ, pos, negsuc, Text, u64, leb,
  Bool-cases, arith, ◌≤◌, ◌%◌, ◌^◌, ◌-◌,
}
use jvm_toxcore_c.Jni.{Env, JavaArray, fatal}
use jvm_toxcore_c.Instances.{Manager}
use jvm_toxcore_c.Core.Callbacks.{public_key_size}
use jvm_toxcore_c.Errors.{core_subsystem}
use jvm_toxcore_c.Errors.Core.Self as S
use jvm_toxcore_c.Wrappers.{ErrCall, with_instance_ign}
use jvm_toxcore_c.Methods.{has_size}
use jvm_toxcore_c.Methods.Files as Files
use jvm_toxcore_c.Methods.Own as Own

-- A value of a `jlong`.
abbrev pub is_jlong : ℤ → Bool
is_jlong (pos n) = ltb n (2 ^ 63)
is_jlong (negsuc n) = ltb n (2 ^ 63)

-- The arguments of the bootstrap methods that are not aborted.
abbrev pub IsPort : ℤ → Type 0
IsPort port = (k : ℕ) × (k ≤ 65535) × (port ≡ pos k)

module _ {Tox V : Type 0} where
  -- For any function of toxcore, `toxBootstrapLike` aborts the process unless the port is at least 0
  -- and at most 65535 and the key is null or has 32 bytes, and otherwise calls the function with just
  -- this port, which no cast to 16 bits changes, and with the address and the key as they are.
  pub bootstrap_like-IsPort :
      (function : JavaArray ℕ → ℕ → JavaArray ℕ → ErrCall Tox S.ErrBootstrap Bool)
      (address : JavaArray ℕ) (port : ℤ) (key : JavaArray ℕ) (env : Env) (n : ℤ) (m : Manager Tox V)
      → ((t : Text) × (Own.bootstrap_like function address port key env n m ≡ fatal t)
          × (IsPort port × (has_size public_key_size key ≡ true) → ⊥))
        ⊎ ((k : ℕ) × (k ≤ 65535)
            × (port ≡ pos k)
            × (has_size public_key_size key ≡ true)
            × (Own.bootstrap_like function address port key env n m
                ≡ with_instance_ign core_subsystem S.bootstrap_error
                    (function address k key)
                    env
                    n
                    m))
  unfolding Own.bootstrap_like
  bootstrap_like-IsPort function address (negsuc k) key env n m =
      inl (codes "port >= 0", refl, λ ((j, small, e), sized). cc)
  bootstrap_like-IsPort function address (pos k) key env n m = elim (Bool-cases (leb k 65535)) [
    | inr big ↦ rw big (inl (codes "port <= 65535", refl, λ ((j, small, e), sized). ground arith))
    | inl fits ↦ elim (Bool-cases (has_size public_key_size key)) [
      | inl sized ↦
          let exact : k % 65536 ≡ k = ground arith in
          rw fits (rw sized (rw exact (inr (k, ground arith, refl, refl, refl))))
      | inr wrong ↦ rw fits (rw wrong (inl (codes "public key size", refl, λ (port, sized). cc)))
    ]
  ]

-- A size of a file that Java sends is passed to toxcore as it is if it is not negative, and
-- otherwise as the largest `uint64_t`, which stands for a stream.
streaming-u64 :
    (size : ℤ)
    → is_jlong size ≡ true
    → ((n : ℕ) × (size ≡ pos n) × (u64 (Files.streaming size) ≡ n))
      ⊎ ((n : ℕ) × (size ≡ negsuc n) × (u64 (Files.streaming size) ≡ 2 ^ 64 - 1))
unfolding Files.streaming
streaming-u64 (pos k) h = inl (k, refl, ground arith)
streaming-u64 (negsuc k) h = inr (k, refl, refl)
