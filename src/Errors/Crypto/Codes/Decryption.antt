-- ===== src/Errors/Crypto/Codes/Decryption.antt =====
-- ToxCrypto/generated/errors.cpp: DECRYPTION. `other` is a value that is not listed there.
use jvm_toxcore_c.Base.{◌≡◌, refl, inl, inr, [], ◌∷◌, ℤ, pos, codes}
use jvm_toxcore_c.Errors.{ErrorHandling, ErrorType, success, failure_case, unhandled}
use jvm_toxcore_c.Errors.Faithful.{HasShape, IsFaithful, IsListed, find_code, injective_of_list}

-- TOX_ERR_DECRYPTION
pub data ErrDecryption : Type 0 where
  ok bad_format failed invalid_length key_derivation_failed null : ErrDecryption
  other : ℤ → ErrDecryption

handle_decryption : ErrDecryption → ErrorHandling
unfolding failure_case
handle_decryption ok = success
handle_decryption bad_format = failure_case "BAD_FORMAT"
handle_decryption failed = failure_case "FAILED"
handle_decryption invalid_length = failure_case "INVALID_LENGTH"
handle_decryption key_derivation_failed = failure_case "KEY_DERIVATION_FAILED"
handle_decryption null = failure_case "NULL"
handle_decryption (other n) = unhandled

decryption_value : ErrDecryption → ℤ
decryption_value (other n) = n
decryption_value _ = pos 0

unfoldable pub decryption_error : ErrorType ErrDecryption
unfolding handle_decryption decryption_value
decryption_error = record {
  method_name = codes "Decryption";
  handle_error_enum = handle_decryption;
  value = decryption_value;
}

decryption-IsListed : IsListed decryption_error (
    ErrDecryption.bad_format ∷ ErrDecryption.failed ∷ ErrDecryption.invalid_length
    ∷ ErrDecryption.key_derivation_failed ∷ ErrDecryption.null ∷ [])
unfolding decryption_error find_code
decryption-IsListed ok = refl
decryption-IsListed _ = refl

decryption_only_ok : (e : ErrDecryption) → handle_decryption e ≡ success → e ≡ ok
unfolding handle_decryption
decryption_only_ok ok h = refl
decryption_only_ok _ h = cc

decryption_only_other :
    (e : ErrDecryption) → handle_decryption e ≡ unhandled → (n : ℤ) × (e ≡ other n)
unfolding handle_decryption
decryption_only_other (other n) h = (n, refl)
decryption_only_other _ h = cc

decryption_shape : (e : ErrDecryption) → HasShape (handle_decryption e)
unfolding handle_decryption
decryption_shape ok = inl refl
decryption_shape (other n) = inr (inl refl)
decryption_shape _ = inr (inr (_, refl))

pub decryption-IsFaithful : IsFaithful decryption_error ErrDecryption.ok ErrDecryption.other
unfolding decryption_error
decryption-IsFaithful = record {
  shaped = decryption_shape;
  succeeds = refl;
  only_ok = decryption_only_ok;
  only_other = decryption_only_other;
  injective = injective_of_list decryption_error _ decryption-IsListed;
}
