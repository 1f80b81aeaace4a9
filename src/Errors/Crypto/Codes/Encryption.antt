-- ===== src/Errors/Crypto/Codes/Encryption.antt =====
-- ToxCrypto/generated/errors.cpp: ENCRYPTION. `other` is a value that is not listed there.
use jvm_toxcore_c.Base.{◌≡◌, refl, inl, inr, [], ◌∷◌, ℤ, pos, codes}
use jvm_toxcore_c.Errors.{ErrorHandling, ErrorType, success, failure_case, unhandled}
use jvm_toxcore_c.Errors.Faithful.{HasShape, IsFaithful, IsListed, find_code, injective_of_list}

-- TOX_ERR_ENCRYPTION
pub data ErrEncryption : Type 0 where
  ok failed key_derivation_failed null : ErrEncryption
  other : ℤ → ErrEncryption

handle_encryption : ErrEncryption → ErrorHandling
unfolding failure_case
handle_encryption ok = success
handle_encryption failed = failure_case "FAILED"
handle_encryption key_derivation_failed = failure_case "KEY_DERIVATION_FAILED"
handle_encryption null = failure_case "NULL"
handle_encryption (other n) = unhandled

encryption_value : ErrEncryption → ℤ
encryption_value (other n) = n
encryption_value _ = pos 0

unfoldable pub encryption_error : ErrorType ErrEncryption
unfolding handle_encryption encryption_value
encryption_error = record {
  method_name = codes "Encryption";
  handle_error_enum = handle_encryption;
  value = encryption_value;
}

encryption-IsListed :
    IsListed encryption_error
      (ErrEncryption.failed ∷ ErrEncryption.key_derivation_failed ∷ ErrEncryption.null ∷ [])
unfolding encryption_error find_code
encryption-IsListed ok = refl
encryption-IsListed _ = refl

encryption_only_ok : (e : ErrEncryption) → handle_encryption e ≡ success → e ≡ ok
unfolding handle_encryption
encryption_only_ok ok h = refl
encryption_only_ok _ h = cc

encryption_only_other :
    (e : ErrEncryption) → handle_encryption e ≡ unhandled → (n : ℤ) × (e ≡ other n)
unfolding handle_encryption
encryption_only_other (other n) h = (n, refl)
encryption_only_other _ h = cc

encryption_shape : (e : ErrEncryption) → HasShape (handle_encryption e)
unfolding handle_encryption
encryption_shape ok = inl refl
encryption_shape (other n) = inr (inl refl)
encryption_shape _ = inr (inr (_, refl))

pub encryption-IsFaithful : IsFaithful encryption_error ErrEncryption.ok ErrEncryption.other
unfolding encryption_error
encryption-IsFaithful = record {
  shaped = encryption_shape;
  succeeds = refl;
  only_ok = encryption_only_ok;
  only_other = encryption_only_other;
  injective = injective_of_list encryption_error _ encryption-IsListed;
}
