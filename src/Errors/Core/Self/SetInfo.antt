-- ===== src/Errors/Core/Self/SetInfo.antt =====
-- ToxCore/generated/errors.cpp: SET_INFO. `other` is a value that is not listed there.
use jvm_toxcore_c.Base.{◌≡◌, refl, inl, inr, [], ◌∷◌, ℤ, pos, codes}
use jvm_toxcore_c.Errors.{ErrorHandling, ErrorType, success, failure_case, unhandled}
use jvm_toxcore_c.Errors.Faithful.{HasShape, IsFaithful, IsListed, find_code, injective_of_list}

-- TOX_ERR_SET_INFO
pub data ErrSetInfo : Type 0 where
  ok null too_long : ErrSetInfo
  other : ℤ → ErrSetInfo

handle_set_info : ErrSetInfo → ErrorHandling
unfolding failure_case
handle_set_info ok = success
handle_set_info null = failure_case "NULL"
handle_set_info too_long = failure_case "TOO_LONG"
handle_set_info (other n) = unhandled

set_info_value : ErrSetInfo → ℤ
set_info_value (other n) = n
set_info_value _ = pos 0

unfoldable pub set_info_error : ErrorType ErrSetInfo
unfolding handle_set_info set_info_value
set_info_error = record {
  method_name = codes "SetInfo";
  handle_error_enum = handle_set_info;
  value = set_info_value;
}

set_info-IsListed : IsListed set_info_error (ErrSetInfo.null ∷ ErrSetInfo.too_long ∷ [])
unfolding set_info_error find_code
set_info-IsListed ok = refl
set_info-IsListed _ = refl

set_info_only_ok : (e : ErrSetInfo) → handle_set_info e ≡ success → e ≡ ok
unfolding handle_set_info
set_info_only_ok ok h = refl
set_info_only_ok _ h = cc

set_info_only_other : (e : ErrSetInfo) → handle_set_info e ≡ unhandled → (n : ℤ) × (e ≡ other n)
unfolding handle_set_info
set_info_only_other (other n) h = (n, refl)
set_info_only_other _ h = cc

set_info_shape : (e : ErrSetInfo) → HasShape (handle_set_info e)
unfolding handle_set_info
set_info_shape ok = inl refl
set_info_shape (other n) = inr (inl refl)
set_info_shape _ = inr (inr (_, refl))

pub set_info-IsFaithful : IsFaithful set_info_error ErrSetInfo.ok ErrSetInfo.other
unfolding set_info_error
set_info-IsFaithful = record {
  shaped = set_info_shape;
  succeeds = refl;
  only_ok = set_info_only_ok;
  only_other = set_info_only_other;
  injective = injective_of_list set_info_error _ set_info-IsListed;
}
