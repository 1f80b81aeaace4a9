-- ===== src/Crypto/Keys.antt =====
-- Pass keys, and what is encrypted under them.
use jvm_toxcore_c.Base.{
  Option, ℕ, zero, suc, ◌+◌, ◌-◌, ◌==◌, ◌≡◌, ◌≢◌, refl, ap, ◌∙◌, true, none, some, List, length,
  codes, ◌⊎◌, inl, inr, arith, Bool-cases,
}
use jvm_toxcore_c.Jni.{undefined, Env, JavaArray, returned, exception_check}
use jvm_toxcore_c.Errors.{crypto_subsystem, throw_by_name}
use jvm_toxcore_c.Errors.Results.{
  with_error_handling_lem, with_error_handling-ok, throw_by_name-pending,
}
use jvm_toxcore_c.Errors.Crypto.Codes.{
  ErrDecryption, ErrEncryption, ErrKeyDerivation, decryption_error, encryption_error,
  key_derivation_error, decryption-IsFaithful, encryption-IsFaithful, key_derivation-IsFaithful,
}
use jvm_toxcore_c.Core.Iterate.{elements}
use jvm_toxcore_c.Drain.{zeros}
use jvm_toxcore_c.Crypto.{
  CryptoApi, pass_salt_length, pass_key_length, extra_length, buffer_to_java, take_pass_key,
  null_array, pass_key_from_java, pass_key_derive_with_salt, pass_key_decrypt, pass_key_encrypt,
}

pub length-zeros : (n : ℕ) → length (zeros n) ≡ n
unfolding zeros
length-zeros zero = refl
length-zeros (suc n) = ap suc (length-zeros n)

-- What toxcore documents of encryption: it fills a buffer of `extra_length` bytes more than the
-- data, which decrypts under the same key, into a buffer that has room for just the data, to it.
pub record IsCipher (t : CryptoApi) : Type 0 where
  pub filled :
      (key bytes out : List ℕ)
      → length out ≡ length bytes + extra_length
      → (t.pass_key_encrypt key (some bytes) out).1 ≡ ErrEncryption.ok
      → length (t.pass_key_encrypt key (some bytes) out).0.1 ≡ length out
  pub decrypted :
      (key bytes out back : List ℕ)
      → length out ≡ length bytes + extra_length
      → (t.pass_key_encrypt key (some bytes) out).1 ≡ ErrEncryption.ok
      → length back ≡ length bytes
      → t.pass_key_decrypt key (some (t.pass_key_encrypt key (some bytes) out).0.1) back
        ≡ ((true, bytes), ErrDecryption.ok)

module _ (t : CryptoApi) where
  -- Encrypting with a key of the right size gives an array that is `extra_length` bytes longer and
  -- decrypts under that key to the data, or null with an exception.
  pub decrypt-encrypt :
      (bytes key : List ℕ) (env : Env)
      → IsCipher t
      → length key ≡ pass_salt_length + pass_key_length
      → ((cipher : List ℕ) × (pass_key_encrypt t (some bytes) (some key) env
            ≡ returned (some cipher, env))
          × (length cipher ≡ length bytes + extra_length)
          × (pass_key_decrypt t (some cipher) (some key) env ≡ returned (some bytes, env)))
        ⊎ ((env' : Env) × (exception_check env' ≡ true)
            × (pass_key_encrypt t (some bytes) (some key) env ≡ returned (none, env')))
  unfolding pass_key_encrypt pass_key_decrypt pass_key_from_java
  decrypt-encrypt bytes key env c sized =
      let out = zeros (length bytes + extra_length) in
      let exact : (length key == pass_salt_length + pass_key_length) ≡ true = ground arith in
      let call = t.pass_key_encrypt key (some bytes) out in
      elim (with_error_handling_lem crypto_subsystem encryption_error ErrEncryption.ok
        ErrEncryption.other buffer_to_java null_array env call.0 call.1 encryption-IsFaithful) [
          | inl (won, ran) ↦
              let grown = c.filled key bytes out (length-zeros _) won ∙ length-zeros _ in
              let room : length (zeros (length call.0.1 - extra_length)) ≡ length bytes =
                length-zeros _ ∙ omega (arith, grown) in
              let back =
                c.decrypted key bytes out (zeros (length call.0.1 - extra_length)) (length-zeros _)
                  won room in
              inl (
                call.0.1,
                rw exact ran,
                grown,
                rw exact (
                    rw back (
                      with_error_handling-ok crypto_subsystem decryption_error ErrDecryption.ok
                        ErrDecryption.other buffer_to_java null_array env (true, bytes)
                        decryption-IsFaithful)),
              )
          | inr (lost, (env', thrown, ran)) ↦ inr (env', thrown, rw exact ran)
        ]

  take_pass_key-undefined : (key : Option (List ℕ)) (env : Env) → take_pass_key key env ≡ undefined
  take_pass_key-undefined none env = refl
  take_pass_key-undefined (some key) env = refl

  -- A salt that does not have its size is refused: null with an exception. With any other, when the
  -- code of toxcore is not OK, null with an exception; when it is OK, the behaviour is undefined,
  -- since the key that toxcore allocated is freed with `delete[]`.
  pub derive_with_salt-outcome :
      (passphrase salt : JavaArray ℕ) (env : Env)
      → ((length (elements salt) ≡ pass_salt_length)
          × ((t.pass_key_derive_with_salt passphrase salt).1 ≡ ErrKeyDerivation.ok)
          × (pass_key_derive_with_salt t passphrase salt env ≡ undefined))
        ⊎ ((env' : Env) × (exception_check env' ≡ true)
            × ((length (elements salt) ≢ pass_salt_length)
                ⊎ ((t.pass_key_derive_with_salt passphrase salt).1 ≢ ErrKeyDerivation.ok))
            × (pass_key_derive_with_salt t passphrase salt env ≡ returned (none, env')))
  unfolding pass_key_derive_with_salt
  derive_with_salt-outcome passphrase salt env =
      elim (Bool-cases (length (elements salt) == pass_salt_length)) [
        | inr wrong ↦ inr (
          throw_by_name crypto_subsystem key_derivation_error env (codes "INVALID_LENGTH"),
          throw_by_name-pending crypto_subsystem key_derivation_error env (codes "INVALID_LENGTH"),
          inl (λ e. ground arith),
          rw wrong refl,
        )
        | inl right ↦
            let call = t.pass_key_derive_with_salt passphrase salt in
            elim (with_error_handling_lem crypto_subsystem key_derivation_error ErrKeyDerivation.ok
              ErrKeyDerivation.other take_pass_key null_array env call.0 call.1
              key_derivation-IsFaithful) [
                | inl (won, ran) ↦
                    inl (ground arith, won, rw right (rw ran (take_pass_key-undefined call.0 env)))
                | inr (lost, (env', thrown, ran)) ↦ inr (env', thrown, inr lost, rw right ran)
              ]
      ]
