-- ===== src/Errors/Crypto/Codes/GetSalt.antt =====
-- ToxCrypto/generated/errors.cpp: GET_SALT. `other` is a value that is not listed there.
use jvm_toxcore_c.Base.{◌≡◌, refl, inl, inr, [], ◌∷◌, ℤ, pos, codes}
use jvm_toxcore_c.Errors.{ErrorHandling, ErrorType, success, failure_case, unhandled}
use jvm_toxcore_c.Errors.Faithful.{HasShape, IsFaithful, IsListed, find_code, injective_of_list}

-- TOX_ERR_GET_SALT
pub data ErrGetSalt : Type 0 where
  ok bad_format null : ErrGetSalt
  other : ℤ → ErrGetSalt

handle_get_salt : ErrGetSalt → ErrorHandling
unfolding failure_case
handle_get_salt ok = success
handle_get_salt bad_format = failure_case "BAD_FORMAT"
handle_get_salt null = failure_case "NULL"
handle_get_salt (other n) = unhandled

get_salt_value : ErrGetSalt → ℤ
get_salt_value (other n) = n
get_salt_value _ = pos 0

unfoldable pub get_salt_error : ErrorType ErrGetSalt
unfolding handle_get_salt get_salt_value
get_salt_error = record {
  method_name = codes "GetSalt";
  handle_error_enum = handle_get_salt;
  value = get_salt_value;
}

get_salt-IsListed : IsListed get_salt_error (ErrGetSalt.bad_format ∷ ErrGetSalt.null ∷ [])
unfolding get_salt_error find_code
get_salt-IsListed ok = refl
get_salt-IsListed _ = refl

get_salt_only_ok : (e : ErrGetSalt) → handle_get_salt e ≡ success → e ≡ ok
unfolding handle_get_salt
get_salt_only_ok ok h = refl
get_salt_only_ok _ h = cc

get_salt_only_other : (e : ErrGetSalt) → handle_get_salt e ≡ unhandled → (n : ℤ) × (e ≡ other n)
unfolding handle_get_salt
get_salt_only_other (other n) h = (n, refl)
get_salt_only_other _ h = cc

get_salt_shape : (e : ErrGetSalt) → HasShape (handle_get_salt e)
unfolding handle_get_salt
get_salt_shape ok = inl refl
get_salt_shape (other n) = inr (inl refl)
get_salt_shape _ = inr (inr (_, refl))

pub get_salt-IsFaithful : IsFaithful get_salt_error ErrGetSalt.ok ErrGetSalt.other
unfolding get_salt_error
get_salt-IsFaithful = record {
  shaped = get_salt_shape;
  succeeds = refl;
  only_ok = get_salt_only_ok;
  only_other = get_salt_only_other;
  injective = injective_of_list get_salt_error _ get_salt-IsListed;
}
