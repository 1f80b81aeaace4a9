-- ===== src/Errors/Core/Friend/FriendDelete.antt =====
-- ToxCore/generated/errors.cpp: FRIEND_DELETE. `other` is a value that is not listed there.
use jvm_toxcore_c.Base.{◌≡◌, refl, inl, inr, [], ◌∷◌, ℤ, pos, codes}
use jvm_toxcore_c.Errors.{ErrorHandling, ErrorType, success, failure_case, unhandled}
use jvm_toxcore_c.Errors.Faithful.{HasShape, IsFaithful, IsListed, find_code, injective_of_list}

-- TOX_ERR_FRIEND_DELETE
pub data ErrFriendDelete : Type 0 where
  ok friend_not_found : ErrFriendDelete
  other : ℤ → ErrFriendDelete

handle_friend_delete : ErrFriendDelete → ErrorHandling
unfolding failure_case
handle_friend_delete ok = success
handle_friend_delete friend_not_found = failure_case "FRIEND_NOT_FOUND"
handle_friend_delete (other n) = unhandled

friend_delete_value : ErrFriendDelete → ℤ
friend_delete_value (other n) = n
friend_delete_value _ = pos 0

unfoldable pub friend_delete_error : ErrorType ErrFriendDelete
unfolding handle_friend_delete friend_delete_value
friend_delete_error = record {
  method_name = codes "FriendDelete";
  handle_error_enum = handle_friend_delete;
  value = friend_delete_value;
}

friend_delete-IsListed : IsListed friend_delete_error (ErrFriendDelete.friend_not_found ∷ [])
unfolding friend_delete_error find_code
friend_delete-IsListed ok = refl
friend_delete-IsListed _ = refl

friend_delete_only_ok : (e : ErrFriendDelete) → handle_friend_delete e ≡ success → e ≡ ok
unfolding handle_friend_delete
friend_delete_only_ok ok h = refl
friend_delete_only_ok _ h = cc

friend_delete_only_other :
    (e : ErrFriendDelete) → handle_friend_delete e ≡ unhandled → (n : ℤ) × (e ≡ other n)
unfolding handle_friend_delete
friend_delete_only_other (other n) h = (n, refl)
friend_delete_only_other _ h = cc

friend_delete_shape : (e : ErrFriendDelete) → HasShape (handle_friend_delete e)
unfolding handle_friend_delete
friend_delete_shape ok = inl refl
friend_delete_shape (other n) = inr (inl refl)
friend_delete_shape _ = inr (inr (_, refl))

pub friend_delete-IsFaithful :
    IsFaithful friend_delete_error ErrFriendDelete.ok ErrFriendDelete.other
unfolding friend_delete_error
friend_delete-IsFaithful = record {
  shaped = friend_delete_shape;
  succeeds = refl;
  only_ok = friend_delete_only_ok;
  only_other = friend_delete_only_other;
  injective = injective_of_list friend_delete_error _ friend_delete-IsListed;
}
