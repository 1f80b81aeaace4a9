-- ===== src/Errors/Av/Stream.antt =====
-- ToxAv/generated/errors.cpp: BIT_RATE_SET, SEND_FRAME. `other` is a code that the switch does not list.
use jvm_toxcore_c.Base.{◌≡◌, refl, inl, inr, [], ◌∷◌, ℤ, pos, codes}
use jvm_toxcore_c.Errors.{ErrorHandling, ErrorType, success, failure_case, unhandled}
use jvm_toxcore_c.Errors.Faithful.{HasShape, IsFaithful, IsListed, find_code, injective_of_list}

-- TOXAV_ERR_BIT_RATE_SET
pub data ErrAvBitRateSet : Type 0 where
  ok friend_not_found friend_not_in_call invalid_bit_rate sync : ErrAvBitRateSet
  other : ℤ → ErrAvBitRateSet

handle_av_bit_rate_set : ErrAvBitRateSet → ErrorHandling
unfolding failure_case
handle_av_bit_rate_set ok = success
handle_av_bit_rate_set friend_not_found = failure_case "FRIEND_NOT_FOUND"
handle_av_bit_rate_set friend_not_in_call = failure_case "FRIEND_NOT_IN_CALL"
handle_av_bit_rate_set invalid_bit_rate = failure_case "INVALID_BIT_RATE"
handle_av_bit_rate_set sync = failure_case "SYNC"
handle_av_bit_rate_set (other n) = unhandled

av_bit_rate_set_value : ErrAvBitRateSet → ℤ
av_bit_rate_set_value (other n) = n
av_bit_rate_set_value _ = pos 0

unfoldable pub av_bit_rate_set_error : ErrorType ErrAvBitRateSet
unfolding handle_av_bit_rate_set av_bit_rate_set_value
av_bit_rate_set_error = record {
  method_name = codes "BitRateSet";
  handle_error_enum = handle_av_bit_rate_set;
  value = av_bit_rate_set_value;
}

av_bit_rate_set-IsListed : IsListed av_bit_rate_set_error (
    ErrAvBitRateSet.friend_not_found ∷ ErrAvBitRateSet.friend_not_in_call
    ∷ ErrAvBitRateSet.invalid_bit_rate ∷ ErrAvBitRateSet.sync ∷ [])
unfolding av_bit_rate_set_error find_code
av_bit_rate_set-IsListed ok = refl
av_bit_rate_set-IsListed _ = refl

av_bit_rate_set_only_ok : (e : ErrAvBitRateSet) → handle_av_bit_rate_set e ≡ success → e ≡ ok
unfolding handle_av_bit_rate_set
av_bit_rate_set_only_ok ok h = refl
av_bit_rate_set_only_ok _ h = cc

av_bit_rate_set_only_other :
    (e : ErrAvBitRateSet) → handle_av_bit_rate_set e ≡ unhandled → (n : ℤ) × (e ≡ other n)
unfolding handle_av_bit_rate_set
av_bit_rate_set_only_other (other n) h = (n, refl)
av_bit_rate_set_only_other _ h = cc

av_bit_rate_set_shape : (e : ErrAvBitRateSet) → HasShape (handle_av_bit_rate_set e)
unfolding handle_av_bit_rate_set
av_bit_rate_set_shape ok = inl refl
av_bit_rate_set_shape (other n) = inr (inl refl)
av_bit_rate_set_shape _ = inr (inr (_, refl))

pub av_bit_rate_set-IsFaithful :
    IsFaithful av_bit_rate_set_error ErrAvBitRateSet.ok ErrAvBitRateSet.other
unfolding av_bit_rate_set_error
av_bit_rate_set-IsFaithful = record {
  shaped = av_bit_rate_set_shape;
  succeeds = refl;
  only_ok = av_bit_rate_set_only_ok;
  only_other = av_bit_rate_set_only_other;
  injective = injective_of_list av_bit_rate_set_error _ av_bit_rate_set-IsListed;
}

-- TOXAV_ERR_SEND_FRAME
pub data ErrAvSendFrame : Type 0 where
  ok friend_not_found friend_not_in_call invalid null payload_type_disabled rtp_failed sync :
      ErrAvSendFrame
  other : ℤ → ErrAvSendFrame

handle_av_send_frame : ErrAvSendFrame → ErrorHandling
unfolding failure_case
handle_av_send_frame ok = success
handle_av_send_frame friend_not_found = failure_case "FRIEND_NOT_FOUND"
handle_av_send_frame friend_not_in_call = failure_case "FRIEND_NOT_IN_CALL"
handle_av_send_frame invalid = failure_case "INVALID"
handle_av_send_frame null = failure_case "NULL"
handle_av_send_frame payload_type_disabled = failure_case "PAYLOAD_TYPE_DISABLED"
handle_av_send_frame rtp_failed = failure_case "RTP_FAILED"
handle_av_send_frame sync = failure_case "SYNC"
handle_av_send_frame (other n) = unhandled

av_send_frame_value : ErrAvSendFrame → ℤ
av_send_frame_value (other n) = n
av_send_frame_value _ = pos 0

unfoldable pub av_send_frame_error : ErrorType ErrAvSendFrame
unfolding handle_av_send_frame av_send_frame_value
av_send_frame_error = record {
  method_name = codes "SendFrame";
  handle_error_enum = handle_av_send_frame;
  value = av_send_frame_value;
}

av_send_frame-IsListed : IsListed av_send_frame_error (
    ErrAvSendFrame.friend_not_found ∷ ErrAvSendFrame.friend_not_in_call ∷ ErrAvSendFrame.invalid
    ∷ ErrAvSendFrame.null ∷ ErrAvSendFrame.payload_type_disabled ∷ ErrAvSendFrame.rtp_failed
    ∷ ErrAvSendFrame.sync ∷ [])
unfolding av_send_frame_error find_code
av_send_frame-IsListed ok = refl
av_send_frame-IsListed _ = refl

av_send_frame_only_ok : (e : ErrAvSendFrame) → handle_av_send_frame e ≡ success → e ≡ ok
unfolding handle_av_send_frame
av_send_frame_only_ok ok h = refl
av_send_frame_only_ok _ h = cc

av_send_frame_only_other :
    (e : ErrAvSendFrame) → handle_av_send_frame e ≡ unhandled → (n : ℤ) × (e ≡ other n)
unfolding handle_av_send_frame
av_send_frame_only_other (other n) h = (n, refl)
av_send_frame_only_other _ h = cc

av_send_frame_shape : (e : ErrAvSendFrame) → HasShape (handle_av_send_frame e)
unfolding handle_av_send_frame
av_send_frame_shape ok = inl refl
av_send_frame_shape (other n) = inr (inl refl)
av_send_frame_shape _ = inr (inr (_, refl))

pub av_send_frame-IsFaithful : IsFaithful av_send_frame_error ErrAvSendFrame.ok ErrAvSendFrame.other
unfolding av_send_frame_error
av_send_frame-IsFaithful = record {
  shaped = av_send_frame_shape;
  succeeds = refl;
  only_ok = av_send_frame_only_ok;
  only_other = av_send_frame_only_other;
  injective = injective_of_list av_send_frame_error _ av_send_frame-IsListed;
}
