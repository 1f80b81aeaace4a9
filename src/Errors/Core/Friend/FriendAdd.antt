-- ===== src/Errors/Core/Friend/FriendAdd.antt =====
-- ToxCore/generated/errors.cpp: FRIEND_ADD. `other` is a value that is not listed there.
use jvm_toxcore_c.Base.{◌≡◌, refl, inl, inr, [], ◌∷◌, ℤ, pos, codes}
use jvm_toxcore_c.Errors.{ErrorHandling, ErrorType, success, failure_case, unhandled}
use jvm_toxcore_c.Errors.Faithful.{HasShape, IsFaithful, IsListed, find_code, injective_of_list}

-- TOX_ERR_FRIEND_ADD
pub data ErrFriendAdd : Type 0 where
  ok already_sent bad_checksum malloc no_message null own_key set_new_nospam too_long : ErrFriendAdd
  other : ℤ → ErrFriendAdd

handle_friend_add : ErrFriendAdd → ErrorHandling
unfolding failure_case
handle_friend_add ok = success
handle_friend_add already_sent = failure_case "ALREADY_SENT"
handle_friend_add bad_checksum = failure_case "BAD_CHECKSUM"
handle_friend_add malloc = failure_case "MALLOC"
handle_friend_add no_message = failure_case "NO_MESSAGE"
handle_friend_add null = failure_case "NULL"
handle_friend_add own_key = failure_case "OWN_KEY"
handle_friend_add set_new_nospam = failure_case "SET_NEW_NOSPAM"
handle_friend_add too_long = failure_case "TOO_LONG"
handle_friend_add (other n) = unhandled

friend_add_value : ErrFriendAdd → ℤ
friend_add_value (other n) = n
friend_add_value _ = pos 0

unfoldable pub friend_add_error : ErrorType ErrFriendAdd
unfolding handle_friend_add friend_add_value
friend_add_error = record {
  method_name = codes "FriendAdd";
  handle_error_enum = handle_friend_add;
  value = friend_add_value;
}

friend_add-IsListed : IsListed friend_add_error (
    ErrFriendAdd.already_sent ∷ ErrFriendAdd.bad_checksum ∷ ErrFriendAdd.malloc
    ∷ ErrFriendAdd.no_message ∷ ErrFriendAdd.null ∷ ErrFriendAdd.own_key
    ∷ ErrFriendAdd.set_new_nospam ∷ ErrFriendAdd.too_long ∷ [])
unfolding friend_add_error find_code
friend_add-IsListed ok = refl
friend_add-IsListed _ = refl

friend_add_only_ok : (e : ErrFriendAdd) → handle_friend_add e ≡ success → e ≡ ok
unfolding handle_friend_add
friend_add_only_ok ok h = refl
friend_add_only_ok _ h = cc

friend_add_only_other :
    (e : ErrFriendAdd) → handle_friend_add e ≡ unhandled → (n : ℤ) × (e ≡ other n)
unfolding handle_friend_add
friend_add_only_other (other n) h = (n, refl)
friend_add_only_other _ h = cc

friend_add_shape : (e : ErrFriendAdd) → HasShape (handle_friend_add e)
unfolding handle_friend_add
friend_add_shape ok = inl refl
friend_add_shape (other n) = inr (inl refl)
friend_add_shape _ = inr (inr (_, refl))

pub friend_add-IsFaithful : IsFaithful friend_add_error ErrFriendAdd.ok ErrFriendAdd.other
unfolding friend_add_error
friend_add-IsFaithful = record {
  shaped = friend_add_shape;
  succeeds = refl;
  only_ok = friend_add_only_ok;
  only_other = friend_add_only_other;
  injective = injective_of_list friend_add_error _ friend_add-IsListed;
}
