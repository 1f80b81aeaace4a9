-- ===== src/Examples/Keys.antt =====
-- Examples on new instances and on encryption.
use jvm_toxcore_c.Base.{
  ℕ, zero, suc, ◌+◌, ◌≡◌, ◌≢◌, refl, sym, ap, ◌∙◌, true, false, Option, none, some, List, [], ◌∷◌,
  ◌++◌, pos, ◌⊎◌, length, length-append, arith,
}
use jvm_toxcore_c.Jni.{undefined, Env, returned, exception_check, Ensures}
use jvm_toxcore_c.Instances.{Manager}
use jvm_toxcore_c.Instances.Add.{Added}
use jvm_toxcore_c.Errors.Core.Self.{ErrNew}
use jvm_toxcore_c.Errors.Crypto.Codes.{ErrDecryption, ErrEncryption, ErrGetSalt, ErrKeyDerivation}
use jvm_toxcore_c.Enums.Setup.{
  ToxProxyType, ToxSavedataType, value_of_proxy_type, value_of_savedata_type,
}
use jvm_toxcore_c.Core.Iterate.{elements}
use jvm_toxcore_c.Core.Messages.{Events, no_events}
use jvm_toxcore_c.Core.Dispatch.{Kind}
use jvm_toxcore_c.Construction.{NewArguments, ToxOptions, has_proxy, new_options, new}
use jvm_toxcore_c.Construction.Outcomes.{
  with_callbacks, IsExactly, new_options-IsExactly, new-outcome,
}
use jvm_toxcore_c.Drain.{zeros}
use jvm_toxcore_c.Crypto.{
  CryptoApi, pass_salt_length, extra_length, pass_key_derive_with_salt, pass_key_decrypt,
  pass_key_encrypt,
}
use jvm_toxcore_c.Crypto.Keys.{IsCipher, length-zeros, decrypt-encrypt, derive_with_salt-outcome}
use jvm_toxcore_c.Examples.Tools.{env, table, table-IsValid}

-- A proxy at port 9050, and no data to restore.
abbrev arguments : NewArguments
arguments = record {
  ipv6_enabled = true;
  udp_enabled = false;
  local_discovery_enabled = false;
  proxy_type = pos 2;
  proxy_host = some (104 ∷ []);
  proxy_port = pos 9050;
  start_port = pos 33445;
  end_port = pos 33545;
  tcp_port = pos 0;
  save_data_type = pos 0;
  save_data = none;
}

abbrev options : ToxOptions
options = record {
  ipv6_enabled = true;
  udp_enabled = false;
  local_discovery_enabled = false;
  proxy_type = ToxProxyType.socks5;
  proxy_host = some (104 ∷ []);
  proxy_port = 9050;
  start_port = 33445;
  end_port = 33545;
  tcp_port = 0;
  savedata_type = ToxSavedataType.none;
  savedata_data = none;
}

options_made : new_options arguments ≡ returned options
unfolding new_options value_of_proxy_type has_proxy value_of_savedata_type
options_made = refl

new_options-IsExactly_example : IsExactly arguments options
new_options-IsExactly_example = new_options-IsExactly arguments options options_made

-- An instance counts the callbacks that are set.
abbrev set : Kind → ℕ → ℕ
set k tox = tox + 1

abbrev tox_new : ToxOptions → Option ℕ × ErrNew
tox_new o = (some 0, ErrNew.ok)

abbrev tables : Manager ℕ Events
tables = table no_events

tox_new_gives :
    (x : ToxOptions) → (tox_new x).1 ≡ ErrNew.ok → (tox : ℕ) × ((tox_new x).0 ≡ some tox)
tox_new_gives x h = (0, refl)

new-outcome_example :
    ((ErrNew.ok ≡ ErrNew.ok)
      × ((tox : ℕ) × (some 0 ≡ some tox)
          × Ensures
              (new true set tox_new arguments env tables)
              λ r. (r.1 ≡ env) × Added (with_callbacks set tox) no_events tables (r.0, r.2)))
    ⊎ ((ErrNew.ok ≢ ErrNew.ok)
        × ((env' : Env) × (exception_check env' ≡ true)
            × (new true set tox_new arguments env tables ≡ returned (pos 0, env', tables))))
new-outcome_example =
    new-outcome set tox_new arguments options env tables tox_new_gives (table-IsValid no_events)
      (omega arith) options_made

abbrev first : ℕ → List ℕ → List ℕ
first zero xs = []
first (suc n) [] = []
first (suc n) (x ∷ xs) = x ∷ first n xs

first-append : (xs ys : List ℕ) (n : ℕ) → n ≡ length xs → first n (xs ++ ys) ≡ xs
first-append [] ys zero h = refl
first-append [] ys (suc n) h = absurd (omega arith)
first-append (x ∷ xs) ys zero h = absurd (omega arith)
first-append (x ∷ xs) ys (suc n) h = ap (λ r. x ∷ r) (first-append xs ys n (omega arith))

-- A cipher that appends bytes, with any key.
abbrev api : CryptoApi
api = record {
  get_salt = λ d s. ((true, s), ErrGetSalt.ok);
  is_data_encrypted = λ d. true;
  pass_key_derive_with_salt = λ p s. (some (zeros 64), ErrKeyDerivation.ok);
  pass_key_derive = λ p. (some (zeros 64), ErrKeyDerivation.ok);
  pass_key_decrypt = λ k d out. ((true, first (length out) (elements d)), ErrDecryption.ok);
  pass_key_encrypt = λ k d out. ((true, elements d ++ zeros extra_length), ErrEncryption.ok);
  hash = λ d. (true, zeros 32);
}

api-IsCipher : IsCipher api
api-IsCipher = record {
  filled = λ key d out size won.
      length-append d (zeros extra_length)
      ∙ ap (λ k. length d + k) (length-zeros extra_length)
      ∙ sym size;
  decrypted = λ key d out back size won room.
      ap (λ r. ((true, r), ErrDecryption.ok))
        (first-append d (zeros extra_length) (length back) room);
}

decrypt-encrypt_example :
    ((cipher : List ℕ) × (pass_key_encrypt api (some (1 ∷ 2 ∷ [])) (some (zeros 64)) env
        ≡ returned (some cipher, env))
      × (length cipher ≡ 2 + extra_length)
      × (pass_key_decrypt api (some cipher) (some (zeros 64)) env
          ≡ returned (some (1 ∷ 2 ∷ []), env)))
    ⊎ ((env' : Env) × (exception_check env' ≡ true)
        × (pass_key_encrypt api (some (1 ∷ 2 ∷ [])) (some (zeros 64)) env ≡ returned (none, env')))
decrypt-encrypt_example =
    decrypt-encrypt api (1 ∷ 2 ∷ []) (zeros 64) env api-IsCipher (length-zeros 64)

derived :
    (api.pass_key_derive_with_salt (some []) (some (zeros 32))).1 ≡ ErrKeyDerivation.ok
    → (key : List ℕ) × ((api.pass_key_derive_with_salt (some []) (some (zeros 32))).0 ≡ some key)
derived h = (zeros 64, refl)

derive_with_salt-outcome_example :
    ((length (zeros 32) ≡ pass_salt_length)
      × (ErrKeyDerivation.ok ≡ ErrKeyDerivation.ok)
      × (pass_key_derive_with_salt api (some []) (some (zeros 32)) env ≡ undefined))
    ⊎ ((env' : Env) × (exception_check env' ≡ true)
        × ((length (zeros 32) ≢ pass_salt_length) ⊎ (ErrKeyDerivation.ok ≢ ErrKeyDerivation.ok))
        × (pass_key_derive_with_salt api (some []) (some (zeros 32)) env ≡ returned (none, env')))
derive_with_salt-outcome_example = derive_with_salt-outcome api (some []) (some (zeros 32)) env
