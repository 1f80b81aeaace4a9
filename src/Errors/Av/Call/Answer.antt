-- ===== src/Errors/Av/Call/Answer.antt =====
-- ToxAv/generated/errors.cpp: ANSWER. `other` is a value that is not listed there.
use jvm_toxcore_c.Base.{◌≡◌, refl, inl, inr, [], ◌∷◌, ℤ, pos, codes}
use jvm_toxcore_c.Errors.{ErrorHandling, ErrorType, success, failure_case, unhandled}
use jvm_toxcore_c.Errors.Faithful.{HasShape, IsFaithful, IsListed, find_code, injective_of_list}

-- TOXAV_ERR_ANSWER
pub data ErrAvAnswer : Type 0 where
  ok codec_initialization friend_not_calling friend_not_found invalid_bit_rate sync : ErrAvAnswer
  other : ℤ → ErrAvAnswer

handle_av_answer : ErrAvAnswer → ErrorHandling
unfolding failure_case
handle_av_answer ok = success
handle_av_answer codec_initialization = failure_case "CODEC_INITIALIZATION"
handle_av_answer friend_not_calling = failure_case "FRIEND_NOT_CALLING"
handle_av_answer friend_not_found = failure_case "FRIEND_NOT_FOUND"
handle_av_answer invalid_bit_rate = failure_case "INVALID_BIT_RATE"
handle_av_answer sync = failure_case "SYNC"
handle_av_answer (other n) = unhandled

av_answer_value : ErrAvAnswer → ℤ
av_answer_value (other n) = n
av_answer_value _ = pos 0

unfoldable pub av_answer_error : ErrorType ErrAvAnswer
unfolding handle_av_answer av_answer_value
av_answer_error = record {
  method_name = codes "Answer";
  handle_error_enum = handle_av_answer;
  value = av_answer_value;
}

av_answer-IsListed : IsListed av_answer_error (
    ErrAvAnswer.codec_initialization ∷ ErrAvAnswer.friend_not_calling ∷ ErrAvAnswer.friend_not_found
    ∷ ErrAvAnswer.invalid_bit_rate ∷ ErrAvAnswer.sync ∷ [])
unfolding av_answer_error find_code
av_answer-IsListed ok = refl
av_answer-IsListed _ = refl

av_answer_only_ok : (e : ErrAvAnswer) → handle_av_answer e ≡ success → e ≡ ok
unfolding handle_av_answer
av_answer_only_ok ok h = refl
av_answer_only_ok _ h = cc

av_answer_only_other : (e : ErrAvAnswer) → handle_av_answer e ≡ unhandled → (n : ℤ) × (e ≡ other n)
unfolding handle_av_answer
av_answer_only_other (other n) h = (n, refl)
av_answer_only_other _ h = cc

av_answer_shape : (e : ErrAvAnswer) → HasShape (handle_av_answer e)
unfolding handle_av_answer
av_answer_shape ok = inl refl
av_answer_shape (other n) = inr (inl refl)
av_answer_shape _ = inr (inr (_, refl))

pub av_answer-IsFaithful : IsFaithful av_answer_error ErrAvAnswer.ok ErrAvAnswer.other
unfolding av_answer_error
av_answer-IsFaithful = record {
  shaped = av_answer_shape;
  succeeds = refl;
  only_ok = av_answer_only_ok;
  only_other = av_answer_only_other;
  injective = injective_of_list av_answer_error _ av_answer-IsListed;
}
