-- ===== src/Errors/Av/Call/CallControl.antt =====
-- ToxAv/generated/errors.cpp: CALL_CONTROL. `other` is a value that is not listed there.
use jvm_toxcore_c.Base.{◌≡◌, refl, inl, inr, [], ◌∷◌, ℤ, pos, codes}
use jvm_toxcore_c.Errors.{ErrorHandling, ErrorType, success, failure_case, unhandled}
use jvm_toxcore_c.Errors.Faithful.{HasShape, IsFaithful, IsListed, find_code, injective_of_list}

-- TOXAV_ERR_CALL_CONTROL
pub data ErrAvCallControl : Type 0 where
  ok friend_not_found friend_not_in_call invalid_transition sync : ErrAvCallControl
  other : ℤ → ErrAvCallControl

handle_av_call_control : ErrAvCallControl → ErrorHandling
unfolding failure_case
handle_av_call_control ok = success
handle_av_call_control friend_not_found = failure_case "FRIEND_NOT_FOUND"
handle_av_call_control friend_not_in_call = failure_case "FRIEND_NOT_IN_CALL"
handle_av_call_control invalid_transition = failure_case "INVALID_TRANSITION"
handle_av_call_control sync = failure_case "SYNC"
handle_av_call_control (other n) = unhandled

av_call_control_value : ErrAvCallControl → ℤ
av_call_control_value (other n) = n
av_call_control_value _ = pos 0

unfoldable pub av_call_control_error : ErrorType ErrAvCallControl
unfolding handle_av_call_control av_call_control_value
av_call_control_error = record {
  method_name = codes "CallControl";
  handle_error_enum = handle_av_call_control;
  value = av_call_control_value;
}

av_call_control-IsListed : IsListed av_call_control_error (
    ErrAvCallControl.friend_not_found ∷ ErrAvCallControl.friend_not_in_call
    ∷ ErrAvCallControl.invalid_transition ∷ ErrAvCallControl.sync ∷ [])
unfolding av_call_control_error find_code
av_call_control-IsListed ok = refl
av_call_control-IsListed _ = refl

av_call_control_only_ok : (e : ErrAvCallControl) → handle_av_call_control e ≡ success → e ≡ ok
unfolding handle_av_call_control
av_call_control_only_ok ok h = refl
av_call_control_only_ok _ h = cc

av_call_control_only_other :
    (e : ErrAvCallControl) → handle_av_call_control e ≡ unhandled → (n : ℤ) × (e ≡ other n)
unfolding handle_av_call_control
av_call_control_only_other (other n) h = (n, refl)
av_call_control_only_other _ h = cc

av_call_control_shape : (e : ErrAvCallControl) → HasShape (handle_av_call_control e)
unfolding handle_av_call_control
av_call_control_shape ok = inl refl
av_call_control_shape (other n) = inr (inl refl)
av_call_control_shape _ = inr (inr (_, refl))

pub av_call_control-IsFaithful :
    IsFaithful av_call_control_error ErrAvCallControl.ok ErrAvCallControl.other
unfolding av_call_control_error
av_call_control-IsFaithful = record {
  shaped = av_call_control_shape;
  succeeds = refl;
  only_ok = av_call_control_only_ok;
  only_other = av_call_control_only_other;
  injective = injective_of_list av_call_control_error _ av_call_control-IsListed;
}
