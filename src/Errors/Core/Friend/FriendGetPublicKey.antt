-- ===== src/Errors/Core/Friend/FriendGetPublicKey.antt =====
-- ToxCore/generated/errors.cpp: FRIEND_GET_PUBLIC_KEY. `other` is a value that is not listed there.
use jvm_toxcore_c.Base.{◌≡◌, refl, inl, inr, [], ◌∷◌, ℤ, pos, codes}
use jvm_toxcore_c.Errors.{ErrorHandling, ErrorType, success, failure_case, unhandled}
use jvm_toxcore_c.Errors.Faithful.{HasShape, IsFaithful, IsListed, find_code, injective_of_list}

-- TOX_ERR_FRIEND_GET_PUBLIC_KEY
pub data ErrFriendGetPublicKey : Type 0 where
  ok friend_not_found : ErrFriendGetPublicKey
  other : ℤ → ErrFriendGetPublicKey

handle_friend_get_public_key : ErrFriendGetPublicKey → ErrorHandling
unfolding failure_case
handle_friend_get_public_key ok = success
handle_friend_get_public_key friend_not_found = failure_case "FRIEND_NOT_FOUND"
handle_friend_get_public_key (other n) = unhandled

friend_get_public_key_value : ErrFriendGetPublicKey → ℤ
friend_get_public_key_value (other n) = n
friend_get_public_key_value _ = pos 0

unfoldable pub friend_get_public_key_error : ErrorType ErrFriendGetPublicKey
unfolding handle_friend_get_public_key friend_get_public_key_value
friend_get_public_key_error = record {
  method_name = codes "FriendGetPublicKey";
  handle_error_enum = handle_friend_get_public_key;
  value = friend_get_public_key_value;
}

friend_get_public_key-IsListed :
    IsListed friend_get_public_key_error (ErrFriendGetPublicKey.friend_not_found ∷ [])
unfolding friend_get_public_key_error find_code
friend_get_public_key-IsListed ok = refl
friend_get_public_key-IsListed _ = refl

friend_get_public_key_only_ok :
    (e : ErrFriendGetPublicKey) → handle_friend_get_public_key e ≡ success → e ≡ ok
unfolding handle_friend_get_public_key
friend_get_public_key_only_ok ok h = refl
friend_get_public_key_only_ok _ h = cc

friend_get_public_key_only_other :
    (e : ErrFriendGetPublicKey)
    → handle_friend_get_public_key e ≡ unhandled
    → (n : ℤ) × (e ≡ other n)
unfolding handle_friend_get_public_key
friend_get_public_key_only_other (other n) h = (n, refl)
friend_get_public_key_only_other _ h = cc

friend_get_public_key_shape :
    (e : ErrFriendGetPublicKey) → HasShape (handle_friend_get_public_key e)
unfolding handle_friend_get_public_key
friend_get_public_key_shape ok = inl refl
friend_get_public_key_shape (other n) = inr (inl refl)
friend_get_public_key_shape _ = inr (inr (_, refl))

pub friend_get_public_key-IsFaithful :
    IsFaithful friend_get_public_key_error ErrFriendGetPublicKey.ok ErrFriendGetPublicKey.other
unfolding friend_get_public_key_error
friend_get_public_key-IsFaithful = record {
  shaped = friend_get_public_key_shape;
  succeeds = refl;
  only_ok = friend_get_public_key_only_ok;
  only_other = friend_get_public_key_only_other;
  injective = injective_of_list friend_get_public_key_error _ friend_get_public_key-IsListed;
}
