-- ===== src/Crypto.antt =====
-- ToxCrypto/encryptsave.cpp and ToxCrypto/hash.cpp: the methods of ToxCrypto, which have no
-- instance. The functions of toxcore are a parameter: a pass key is its bytes, and a buffer that a
-- function fills is part of its value.
pub mod Keys
use jvm_toxcore_c.Base.{
  ℕ, ◌+◌, ◌-◌, ◌==◌, Bool, true, false, not, Option, none, some, List, [], ◌∷◌, length, ltb, codes,
  if◌then◌else◌,
}
use jvm_toxcore_c.Jni.{Env, JavaArray, Outcome, returned, undefined, ◌>>=◌, ◌>>◌, tox4j_assert}
use jvm_toxcore_c.Errors.{crypto_subsystem, throw_by_name, with_error_handling}
use jvm_toxcore_c.Errors.Crypto.Codes.{
  ErrDecryption, ErrEncryption, ErrGetSalt, ErrKeyDerivation, decryption_error, encryption_error,
  get_salt_error, key_derivation_error,
}
use jvm_toxcore_c.Core.Iterate.{elements}
use jvm_toxcore_c.Drain.{zeros}

-- generated/constants.h asserts these values of the constants of toxcore.
abbrev pub pass_salt_length : ℕ
pass_salt_length = 32

abbrev pub pass_key_length : ℕ
pass_key_length = 32

abbrev pub extra_length : ℕ
extra_length = 80

pub record CryptoApi : Type 0 where
  -- the buffer for the salt is filled
  pub get_salt : JavaArray ℕ → List ℕ → (Bool × List ℕ) × ErrGetSalt
  pub is_data_encrypted : JavaArray ℕ → Bool
  pub pass_key_derive_with_salt : JavaArray ℕ → JavaArray ℕ → Option (List ℕ) × ErrKeyDerivation
  pub pass_key_derive : JavaArray ℕ → Option (List ℕ) × ErrKeyDerivation
  pub pass_key_decrypt : List ℕ → JavaArray ℕ → List ℕ → (Bool × List ℕ) × ErrDecryption
  pub pass_key_encrypt : List ℕ → JavaArray ℕ → List ℕ → (Bool × List ℕ) × ErrEncryption
  pub hash : JavaArray ℕ → Bool × List ℕ

-- A method that returns an array.
abbrev pub ArrayMethod : Type 0
ArrayMethod = Env → Outcome (JavaArray ℕ × Env)

-- The success functions: the buffer that was filled, and a pass key, which is dereferenced.
abbrev pub buffer_to_java : Bool × List ℕ → Env → Outcome (JavaArray ℕ × Env)
buffer_to_java value env = returned (some value.1, env)

abbrev pub pass_key_to_java : Option (List ℕ) → Env → Outcome (JavaArray ℕ × Env)
pass_key_to_java none env = undefined
pass_key_to_java (some key) env = returned (some key, env)

-- `delete[]` on memory that toxcore allocated.
abbrev pub delete_foreign : Outcome (Unit {0})
delete_foreign = undefined

-- The success function of a derivation: the key is converted, and then freed by the deleter of
-- `pass_key_ptr`.
abbrev pub take_pass_key : Option (List ℕ) → Env → Outcome (JavaArray ℕ × Env)
take_pass_key out_key env = do r ← pass_key_to_java out_key env; delete_foreign; returned r

abbrev pub null_array : Env → JavaArray ℕ × Env
null_array env = (none, env)

-- `pass_key_from_java`
unfoldable pub pass_key_from_java : JavaArray ℕ → Outcome (List ℕ)
pass_key_from_java pass_key =
    tox4j_assert (length (elements pass_key) == pass_salt_length + pass_key_length)
      (codes "pass key size")
    >> returned (elements pass_key)

module _ (t : CryptoApi) where
  unfoldable pub get_salt : JavaArray ℕ → ArrayMethod
  get_salt bytes env =
      let (value, error) = t.get_salt bytes (zeros pass_salt_length) in
      with_error_handling crypto_subsystem get_salt_error buffer_to_java null_array env value error

  unfoldable pub is_data_encrypted : JavaArray ℕ → Bool
  is_data_encrypted bytes =
      if ltb (length (elements bytes)) extra_length then false else t.is_data_encrypted bytes

  unfoldable pub pass_key_derive_with_salt : JavaArray ℕ → JavaArray ℕ → ArrayMethod
  pass_key_derive_with_salt passphrase salt env =
      if not (length (elements salt) == pass_salt_length)
      then returned
          (none, throw_by_name crypto_subsystem key_derivation_error env (codes "INVALID_LENGTH"))
      else (let (value, error) = t.pass_key_derive_with_salt passphrase salt in
          with_error_handling crypto_subsystem key_derivation_error take_pass_key null_array env
            value error)

  unfoldable pub pass_key_derive : JavaArray ℕ → ArrayMethod
  pass_key_derive passphrase env =
      let (value, error) = t.pass_key_derive passphrase in
      with_error_handling crypto_subsystem key_derivation_error take_pass_key null_array env value
        error

  -- `std::max (0l, size - extra)` is the subtraction of natural numbers.
  unfoldable pub pass_key_decrypt : JavaArray ℕ → JavaArray ℕ → ArrayMethod
  pass_key_decrypt bytes pass_key env =
      let out = zeros (length (elements bytes) - extra_length) in
      pass_key_from_java pass_key >>= λ key.
      let (value, error) = t.pass_key_decrypt key bytes out in
      with_error_handling crypto_subsystem decryption_error buffer_to_java null_array env value
        error

  unfoldable pub pass_key_encrypt : JavaArray ℕ → JavaArray ℕ → ArrayMethod
  pass_key_encrypt bytes pass_key env =
      let out = zeros (length (elements bytes) + extra_length) in
      pass_key_from_java pass_key >>= λ key.
      let (value, error) = t.pass_key_encrypt key bytes out in
      with_error_handling crypto_subsystem encryption_error buffer_to_java null_array env value
        error

  unfoldable pub hash : JavaArray ℕ → ArrayMethod
  hash bytes env =
      let (result, digest) = t.hash bytes in
      tox4j_assert result (codes "result") >> returned (some digest, env)
