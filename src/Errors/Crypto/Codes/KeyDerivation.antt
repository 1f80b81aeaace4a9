-- ===== src/Errors/Crypto/Codes/KeyDerivation.antt =====
-- ToxCrypto/generated/errors.cpp: KEY_DERIVATION. `other` is a value that is not listed there.
use jvm_toxcore_c.Base.{◌≡◌, refl, inl, inr, [], ◌∷◌, ℤ, pos, codes}
use jvm_toxcore_c.Errors.{ErrorHandling, ErrorType, success, failure_case, unhandled}
use jvm_toxcore_c.Errors.Faithful.{HasShape, IsFaithful, IsListed, find_code, injective_of_list}

-- TOX_ERR_KEY_DERIVATION
pub data ErrKeyDerivation : Type 0 where
  ok failed null : ErrKeyDerivation
  other : ℤ → ErrKeyDerivation

handle_key_derivation : ErrKeyDerivation → ErrorHandling
unfolding failure_case
handle_key_derivation ok = success
handle_key_derivation failed = failure_case "FAILED"
handle_key_derivation null = failure_case "NULL"
handle_key_derivation (other n) = unhandled

key_derivation_value : ErrKeyDerivation → ℤ
key_derivation_value (other n) = n
key_derivation_value _ = pos 0

unfoldable pub key_derivation_error : ErrorType ErrKeyDerivation
unfolding handle_key_derivation key_derivation_value
key_derivation_error = record {
  method_name = codes "KeyDerivation";
  handle_error_enum = handle_key_derivation;
  value = key_derivation_value;
}

key_derivation-IsListed :
    IsListed key_derivation_error (ErrKeyDerivation.failed ∷ ErrKeyDerivation.null ∷ [])
unfolding key_derivation_error find_code
key_derivation-IsListed ok = refl
key_derivation-IsListed _ = refl

key_derivation_only_ok : (e : ErrKeyDerivation) → handle_key_derivation e ≡ success → e ≡ ok
unfolding handle_key_derivation
key_derivation_only_ok ok h = refl
key_derivation_only_ok _ h = cc

key_derivation_only_other :
    (e : ErrKeyDerivation) → handle_key_derivation e ≡ unhandled → (n : ℤ) × (e ≡ other n)
unfolding handle_key_derivation
key_derivation_only_other (other n) h = (n, refl)
key_derivation_only_other _ h = cc

key_derivation_shape : (e : ErrKeyDerivation) → HasShape (handle_key_derivation e)
unfolding handle_key_derivation
key_derivation_shape ok = inl refl
key_derivation_shape (other n) = inr (inl refl)
key_derivation_shape _ = inr (inr (_, refl))

pub key_derivation-IsFaithful :
    IsFaithful key_derivation_error ErrKeyDerivation.ok ErrKeyDerivation.other
unfolding key_derivation_error
key_derivation-IsFaithful = record {
  shaped = key_derivation_shape;
  succeeds = refl;
  only_ok = key_derivation_only_ok;
  only_other = key_derivation_only_other;
  injective = injective_of_list key_derivation_error _ key_derivation-IsListed;
}
