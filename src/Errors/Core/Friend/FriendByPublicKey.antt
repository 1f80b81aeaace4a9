-- ===== src/Errors/Core/Friend/FriendByPublicKey.antt =====
-- ToxCore/generated/errors.cpp: FRIEND_BY_PUBLIC_KEY. `other` is a value that is not listed there.
use jvm_toxcore_c.Base.{◌≡◌, refl, inl, inr, [], ◌∷◌, ℤ, pos, codes}
use jvm_toxcore_c.Errors.{ErrorHandling, ErrorType, success, failure_case, unhandled}
use jvm_toxcore_c.Errors.Faithful.{HasShape, IsFaithful, IsListed, find_code, injective_of_list}

-- TOX_ERR_FRIEND_BY_PUBLIC_KEY
pub data ErrFriendByPublicKey : Type 0 where
  ok not_found null : ErrFriendByPublicKey
  other : ℤ → ErrFriendByPublicKey

handle_friend_by_public_key : ErrFriendByPublicKey → ErrorHandling
unfolding failure_case
handle_friend_by_public_key ok = success
handle_friend_by_public_key not_found = failure_case "NOT_FOUND"
handle_friend_by_public_key null = failure_case "NULL"
handle_friend_by_public_key (other n) = unhandled

friend_by_public_key_value : ErrFriendByPublicKey → ℤ
friend_by_public_key_value (other n) = n
friend_by_public_key_value _ = pos 0

unfoldable pub friend_by_public_key_error : ErrorType ErrFriendByPublicKey
unfolding handle_friend_by_public_key friend_by_public_key_value
friend_by_public_key_error = record {
  method_name = codes "FriendByPublicKey";
  handle_error_enum = handle_friend_by_public_key;
  value = friend_by_public_key_value;
}

friend_by_public_key-IsListed :
    IsListed friend_by_public_key_error
      (ErrFriendByPublicKey.not_found ∷ ErrFriendByPublicKey.null ∷ [])
unfolding friend_by_public_key_error find_code
friend_by_public_key-IsListed ok = refl
friend_by_public_key-IsListed _ = refl

friend_by_public_key_only_ok :
    (e : ErrFriendByPublicKey) → handle_friend_by_public_key e ≡ success → e ≡ ok
unfolding handle_friend_by_public_key
friend_by_public_key_only_ok ok h = refl
friend_by_public_key_only_ok _ h = cc

friend_by_public_key_only_other :
    (e : ErrFriendByPublicKey) → handle_friend_by_public_key e ≡ unhandled → (n : ℤ) × (e ≡ other n)
unfolding handle_friend_by_public_key
friend_by_public_key_only_other (other n) h = (n, refl)
friend_by_public_key_only_other _ h = cc

friend_by_public_key_shape : (e : ErrFriendByPublicKey) → HasShape (handle_friend_by_public_key e)
unfolding handle_friend_by_public_key
friend_by_public_key_shape ok = inl refl
friend_by_public_key_shape (other n) = inr (inl refl)
friend_by_public_key_shape _ = inr (inr (_, refl))

pub friend_by_public_key-IsFaithful :
    IsFaithful friend_by_public_key_error ErrFriendByPublicKey.ok ErrFriendByPublicKey.other
unfolding friend_by_public_key_error
friend_by_public_key-IsFaithful = record {
  shaped = friend_by_public_key_shape;
  succeeds = refl;
  only_ok = friend_by_public_key_only_ok;
  only_other = friend_by_public_key_only_other;
  injective = injective_of_list friend_by_public_key_error _ friend_by_public_key-IsListed;
}
