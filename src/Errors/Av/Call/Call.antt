-- ===== src/Errors/Av/Call/Call.antt =====
-- ToxAv/generated/errors.cpp: CALL. `other` is a value that is not listed there.
use jvm_toxcore_c.Base.{◌≡◌, refl, inl, inr, [], ◌∷◌, ℤ, pos, codes}
use jvm_toxcore_c.Errors.{ErrorHandling, ErrorType, success, failure_case, unhandled}
use jvm_toxcore_c.Errors.Faithful.{HasShape, IsFaithful, IsListed, find_code, injective_of_list}

-- TOXAV_ERR_CALL
pub data ErrAvCall : Type 0 where
  ok friend_already_in_call friend_not_connected friend_not_found invalid_bit_rate malloc sync :
      ErrAvCall
  other : ℤ → ErrAvCall

handle_av_call : ErrAvCall → ErrorHandling
unfolding failure_case
handle_av_call ok = success
handle_av_call friend_already_in_call = failure_case "FRIEND_ALREADY_IN_CALL"
handle_av_call friend_not_connected = failure_case "FRIEND_NOT_CONNECTED"
handle_av_call friend_not_found = failure_case "FRIEND_NOT_FOUND"
handle_av_call invalid_bit_rate = failure_case "INVALID_BIT_RATE"
handle_av_call malloc = failure_case "MALLOC"
handle_av_call sync = failure_case "SYNC"
handle_av_call (other n) = unhandled

av_call_value : ErrAvCall → ℤ
av_call_value (other n) = n
av_call_value _ = pos 0

unfoldable pub av_call_error : ErrorType ErrAvCall
unfolding handle_av_call av_call_value
av_call_error = record {
  method_name = codes "Call";
  handle_error_enum = handle_av_call;
  value = av_call_value;
}

av_call-IsListed : IsListed av_call_error (
    ErrAvCall.friend_already_in_call ∷ ErrAvCall.friend_not_connected ∷ ErrAvCall.friend_not_found
    ∷ ErrAvCall.invalid_bit_rate ∷ ErrAvCall.malloc ∷ ErrAvCall.sync ∷ [])
unfolding av_call_error find_code
av_call-IsListed ok = refl
av_call-IsListed _ = refl

av_call_only_ok : (e : ErrAvCall) → handle_av_call e ≡ success → e ≡ ok
unfolding handle_av_call
av_call_only_ok ok h = refl
av_call_only_ok _ h = cc

av_call_only_other : (e : ErrAvCall) → handle_av_call e ≡ unhandled → (n : ℤ) × (e ≡ other n)
unfolding handle_av_call
av_call_only_other (other n) h = (n, refl)
av_call_only_other _ h = cc

av_call_shape : (e : ErrAvCall) → HasShape (handle_av_call e)
unfolding handle_av_call
av_call_shape ok = inl refl
av_call_shape (other n) = inr (inl refl)
av_call_shape _ = inr (inr (_, refl))

pub av_call-IsFaithful : IsFaithful av_call_error ErrAvCall.ok ErrAvCall.other
unfolding av_call_error
av_call-IsFaithful = record {
  shaped = av_call_shape;
  succeeds = refl;
  only_ok = av_call_only_ok;
  only_other = av_call_only_other;
  injective = injective_of_list av_call_error _ av_call-IsListed;
}
