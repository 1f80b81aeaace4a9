-- ===== src/Errors/Av/Call/New.antt =====
-- ToxAv/generated/errors.cpp: NEW. `other` is a value that is not listed there.
use jvm_toxcore_c.Base.{◌≡◌, refl, inl, inr, [], ◌∷◌, ℤ, pos, codes}
use jvm_toxcore_c.Errors.{ErrorHandling, ErrorType, success, failure_case, unhandled}
use jvm_toxcore_c.Errors.Faithful.{HasShape, IsFaithful, IsListed, find_code, injective_of_list}

-- TOXAV_ERR_NEW
pub data ErrAvNew : Type 0 where
  ok malloc multiple null : ErrAvNew
  other : ℤ → ErrAvNew

handle_av_new : ErrAvNew → ErrorHandling
unfolding failure_case
handle_av_new ok = success
handle_av_new malloc = failure_case "MALLOC"
handle_av_new multiple = failure_case "MULTIPLE"
handle_av_new null = failure_case "NULL"
handle_av_new (other n) = unhandled

av_new_value : ErrAvNew → ℤ
av_new_value (other n) = n
av_new_value _ = pos 0

unfoldable pub av_new_error : ErrorType ErrAvNew
unfolding handle_av_new av_new_value
av_new_error = record {
  method_name = codes "New";
  handle_error_enum = handle_av_new;
  value = av_new_value;
}

av_new-IsListed : IsListed av_new_error (ErrAvNew.malloc ∷ ErrAvNew.multiple ∷ ErrAvNew.null ∷ [])
unfolding av_new_error find_code
av_new-IsListed ok = refl
av_new-IsListed _ = refl

av_new_only_ok : (e : ErrAvNew) → handle_av_new e ≡ success → e ≡ ok
unfolding handle_av_new
av_new_only_ok ok h = refl
av_new_only_ok _ h = cc

av_new_only_other : (e : ErrAvNew) → handle_av_new e ≡ unhandled → (n : ℤ) × (e ≡ other n)
unfolding handle_av_new
av_new_only_other (other n) h = (n, refl)
av_new_only_other _ h = cc

av_new_shape : (e : ErrAvNew) → HasShape (handle_av_new e)
unfolding handle_av_new
av_new_shape ok = inl refl
av_new_shape (other n) = inr (inl refl)
av_new_shape _ = inr (inr (_, refl))

pub av_new-IsFaithful : IsFaithful av_new_error ErrAvNew.ok ErrAvNew.other
unfolding av_new_error
av_new-IsFaithful = record {
  shaped = av_new_shape;
  succeeds = refl;
  only_ok = av_new_only_ok;
  only_other = av_new_only_other;
  injective = injective_of_list av_new_error _ av_new-IsListed;
}
