-- ===== src/Errors/Core/Friend/FriendSendMessage.antt =====
-- ToxCore/generated/errors.cpp: FRIEND_SEND_MESSAGE. `other` is a value that is not listed there.
use jvm_toxcore_c.Base.{◌≡◌, refl, inl, inr, [], ◌∷◌, ℤ, pos, codes}
use jvm_toxcore_c.Errors.{ErrorHandling, ErrorType, success, failure_case, unhandled}
use jvm_toxcore_c.Errors.Faithful.{HasShape, IsFaithful, IsListed, find_code, injective_of_list}

-- TOX_ERR_FRIEND_SEND_MESSAGE
pub data ErrFriendSendMessage : Type 0 where
  ok empty friend_not_connected friend_not_found null sendq too_long : ErrFriendSendMessage
  other : ℤ → ErrFriendSendMessage

handle_friend_send_message : ErrFriendSendMessage → ErrorHandling
unfolding failure_case
handle_friend_send_message ok = success
handle_friend_send_message empty = failure_case "EMPTY"
handle_friend_send_message friend_not_connected = failure_case "FRIEND_NOT_CONNECTED"
handle_friend_send_message friend_not_found = failure_case "FRIEND_NOT_FOUND"
handle_friend_send_message null = failure_case "NULL"
handle_friend_send_message sendq = failure_case "SENDQ"
handle_friend_send_message too_long = failure_case "TOO_LONG"
handle_friend_send_message (other n) = unhandled

friend_send_message_value : ErrFriendSendMessage → ℤ
friend_send_message_value (other n) = n
friend_send_message_value _ = pos 0

unfoldable pub friend_send_message_error : ErrorType ErrFriendSendMessage
unfolding handle_friend_send_message friend_send_message_value
friend_send_message_error = record {
  method_name = codes "FriendSendMessage";
  handle_error_enum = handle_friend_send_message;
  value = friend_send_message_value;
}

friend_send_message-IsListed : IsListed friend_send_message_error (
    ErrFriendSendMessage.empty ∷ ErrFriendSendMessage.friend_not_connected
    ∷ ErrFriendSendMessage.friend_not_found ∷ ErrFriendSendMessage.null ∷ ErrFriendSendMessage.sendq
    ∷ ErrFriendSendMessage.too_long ∷ [])
unfolding friend_send_message_error find_code
friend_send_message-IsListed ok = refl
friend_send_message-IsListed _ = refl

friend_send_message_only_ok :
    (e : ErrFriendSendMessage) → handle_friend_send_message e ≡ success → e ≡ ok
unfolding handle_friend_send_message
friend_send_message_only_ok ok h = refl
friend_send_message_only_ok _ h = cc

friend_send_message_only_other :
    (e : ErrFriendSendMessage) → handle_friend_send_message e ≡ unhandled → (n : ℤ) × (e ≡ other n)
unfolding handle_friend_send_message
friend_send_message_only_other (other n) h = (n, refl)
friend_send_message_only_other _ h = cc

friend_send_message_shape : (e : ErrFriendSendMessage) → HasShape (handle_friend_send_message e)
unfolding handle_friend_send_message
friend_send_message_shape ok = inl refl
friend_send_message_shape (other n) = inr (inl refl)
friend_send_message_shape _ = inr (inr (_, refl))

pub friend_send_message-IsFaithful :
    IsFaithful friend_send_message_error ErrFriendSendMessage.ok ErrFriendSendMessage.other
unfolding friend_send_message_error
friend_send_message-IsFaithful = record {
  shaped = friend_send_message_shape;
  succeeds = refl;
  only_ok = friend_send_message_only_ok;
  only_other = friend_send_message_only_other;
  injective = injective_of_list friend_send_message_error _ friend_send_message-IsListed;
}
