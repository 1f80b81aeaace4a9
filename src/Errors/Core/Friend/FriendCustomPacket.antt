-- ===== src/Errors/Core/Friend/FriendCustomPacket.antt =====
-- ToxCore/generated/errors.cpp: FRIEND_CUSTOM_PACKET. `other` is a value that is not listed there.
use jvm_toxcore_c.Base.{◌≡◌, refl, inl, inr, [], ◌∷◌, ℤ, pos, codes}
use jvm_toxcore_c.Errors.{ErrorHandling, ErrorType, success, failure_case, unhandled}
use jvm_toxcore_c.Errors.Faithful.{HasShape, IsFaithful, IsListed, find_code, injective_of_list}

-- TOX_ERR_FRIEND_CUSTOM_PACKET
pub data ErrFriendCustomPacket : Type 0 where
  ok empty friend_not_connected friend_not_found invalid null sendq too_long : ErrFriendCustomPacket
  other : ℤ → ErrFriendCustomPacket

handle_friend_custom_packet : ErrFriendCustomPacket → ErrorHandling
unfolding failure_case
handle_friend_custom_packet ok = success
handle_friend_custom_packet empty = failure_case "EMPTY"
handle_friend_custom_packet friend_not_connected = failure_case "FRIEND_NOT_CONNECTED"
handle_friend_custom_packet friend_not_found = failure_case "FRIEND_NOT_FOUND"
handle_friend_custom_packet invalid = failure_case "INVALID"
handle_friend_custom_packet null = failure_case "NULL"
handle_friend_custom_packet sendq = failure_case "SENDQ"
handle_friend_custom_packet too_long = failure_case "TOO_LONG"
handle_friend_custom_packet (other n) = unhandled

friend_custom_packet_value : ErrFriendCustomPacket → ℤ
friend_custom_packet_value (other n) = n
friend_custom_packet_value _ = pos 0

unfoldable pub friend_custom_packet_error : ErrorType ErrFriendCustomPacket
unfolding handle_friend_custom_packet friend_custom_packet_value
friend_custom_packet_error = record {
  method_name = codes "FriendCustomPacket";
  handle_error_enum = handle_friend_custom_packet;
  value = friend_custom_packet_value;
}

friend_custom_packet-IsListed : IsListed friend_custom_packet_error (
    ErrFriendCustomPacket.empty ∷ ErrFriendCustomPacket.friend_not_connected
    ∷ ErrFriendCustomPacket.friend_not_found ∷ ErrFriendCustomPacket.invalid
    ∷ ErrFriendCustomPacket.null ∷ ErrFriendCustomPacket.sendq ∷ ErrFriendCustomPacket.too_long
    ∷ [])
unfolding friend_custom_packet_error find_code
friend_custom_packet-IsListed ok = refl
friend_custom_packet-IsListed _ = refl

friend_custom_packet_only_ok :
    (e : ErrFriendCustomPacket) → handle_friend_custom_packet e ≡ success → e ≡ ok
unfolding handle_friend_custom_packet
friend_custom_packet_only_ok ok h = refl
friend_custom_packet_only_ok _ h = cc

friend_custom_packet_only_other :
    (e : ErrFriendCustomPacket)
    → handle_friend_custom_packet e ≡ unhandled
    → (n : ℤ) × (e ≡ other n)
unfolding handle_friend_custom_packet
friend_custom_packet_only_other (other n) h = (n, refl)
friend_custom_packet_only_other _ h = cc

friend_custom_packet_shape : (e : ErrFriendCustomPacket) → HasShape (handle_friend_custom_packet e)
unfolding handle_friend_custom_packet
friend_custom_packet_shape ok = inl refl
friend_custom_packet_shape (other n) = inr (inl refl)
friend_custom_packet_shape _ = inr (inr (_, refl))

pub friend_custom_packet-IsFaithful :
    IsFaithful friend_custom_packet_error ErrFriendCustomPacket.ok ErrFriendCustomPacket.other
unfolding friend_custom_packet_error
friend_custom_packet-IsFaithful = record {
  shaped = friend_custom_packet_shape;
  succeeds = refl;
  only_ok = friend_custom_packet_only_ok;
  only_other = friend_custom_packet_only_other;
  injective = injective_of_list friend_custom_packet_error _ friend_custom_packet-IsListed;
}
