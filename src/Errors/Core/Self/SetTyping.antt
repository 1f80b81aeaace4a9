-- ===== src/Errors/Core/Self/SetTyping.antt =====
-- ToxCore/generated/errors.cpp: SET_TYPING. `other` is a value that is not listed there.
use jvm_toxcore_c.Base.{◌≡◌, refl, inl, inr, [], ◌∷◌, ℤ, pos, codes}
use jvm_toxcore_c.Errors.{ErrorHandling, ErrorType, success, failure_case, unhandled}
use jvm_toxcore_c.Errors.Faithful.{HasShape, IsFaithful, IsListed, find_code, injective_of_list}

-- TOX_ERR_SET_TYPING
pub data ErrSetTyping : Type 0 where
  ok friend_not_found : ErrSetTyping
  other : ℤ → ErrSetTyping

handle_set_typing : ErrSetTyping → ErrorHandling
unfolding failure_case
handle_set_typing ok = success
handle_set_typing friend_not_found = failure_case "FRIEND_NOT_FOUND"
handle_set_typing (other n) = unhandled

set_typing_value : ErrSetTyping → ℤ
set_typing_value (other n) = n
set_typing_value _ = pos 0

unfoldable pub set_typing_error : ErrorType ErrSetTyping
unfolding handle_set_typing set_typing_value
set_typing_error = record {
  method_name = codes "SetTyping";
  handle_error_enum = handle_set_typing;
  value = set_typing_value;
}

set_typing-IsListed : IsListed set_typing_error (ErrSetTyping.friend_not_found ∷ [])
unfolding set_typing_error find_code
set_typing-IsListed ok = refl
set_typing-IsListed _ = refl

set_typing_only_ok : (e : ErrSetTyping) → handle_set_typing e ≡ success → e ≡ ok
unfolding handle_set_typing
set_typing_only_ok ok h = refl
set_typing_only_ok _ h = cc

set_typing_only_other :
    (e : ErrSetTyping) → handle_set_typing e ≡ unhandled → (n : ℤ) × (e ≡ other n)
unfolding handle_set_typing
set_typing_only_other (other n) h = (n, refl)
set_typing_only_other _ h = cc

set_typing_shape : (e : ErrSetTyping) → HasShape (handle_set_typing e)
unfolding handle_set_typing
set_typing_shape ok = inl refl
set_typing_shape (other n) = inr (inl refl)
set_typing_shape _ = inr (inr (_, refl))

pub set_typing-IsFaithful : IsFaithful set_typing_error ErrSetTyping.ok ErrSetTyping.other
unfolding set_typing_error
set_typing-IsFaithful = record {
  shaped = set_typing_shape;
  succeeds = refl;
  only_ok = set_typing_only_ok;
  only_other = set_typing_only_other;
  injective = injective_of_list set_typing_error _ set_typing-IsListed;
}
