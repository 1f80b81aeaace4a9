-- ===== src/Errors/Core/File/FileControl.antt =====
-- ToxCore/generated/errors.cpp: FILE_CONTROL. `other` is a value that is not listed there.
use jvm_toxcore_c.Base.{◌≡◌, refl, inl, inr, [], ◌∷◌, ℤ, pos, codes}
use jvm_toxcore_c.Errors.{ErrorHandling, ErrorType, success, failure_case, unhandled}
use jvm_toxcore_c.Errors.Faithful.{HasShape, IsFaithful, IsListed, find_code, injective_of_list}

-- TOX_ERR_FILE_CONTROL
pub data ErrFileControl : Type 0 where
  ok already_paused denied friend_not_connected friend_not_found not_found not_paused sendq :
      ErrFileControl
  other : ℤ → ErrFileControl

handle_file_control : ErrFileControl → ErrorHandling
unfolding failure_case
handle_file_control ok = success
handle_file_control already_paused = failure_case "ALREADY_PAUSED"
handle_file_control denied = failure_case "DENIED"
handle_file_control friend_not_connected = failure_case "FRIEND_NOT_CONNECTED"
handle_file_control friend_not_found = failure_case "FRIEND_NOT_FOUND"
handle_file_control not_found = failure_case "NOT_FOUND"
handle_file_control not_paused = failure_case "NOT_PAUSED"
handle_file_control sendq = failure_case "SENDQ"
handle_file_control (other n) = unhandled

file_control_value : ErrFileControl → ℤ
file_control_value (other n) = n
file_control_value _ = pos 0

unfoldable pub file_control_error : ErrorType ErrFileControl
unfolding handle_file_control file_control_value
file_control_error = record {
  method_name = codes "FileControl";
  handle_error_enum = handle_file_control;
  value = file_control_value;
}

file_control-IsListed : IsListed file_control_error (
    ErrFileControl.already_paused ∷ ErrFileControl.denied ∷ ErrFileControl.friend_not_connected
    ∷ ErrFileControl.friend_not_found ∷ ErrFileControl.not_found ∷ ErrFileControl.not_paused
    ∷ ErrFileControl.sendq ∷ [])
unfolding file_control_error find_code
file_control-IsListed ok = refl
file_control-IsListed _ = refl

file_control_only_ok : (e : ErrFileControl) → handle_file_control e ≡ success → e ≡ ok
unfolding handle_file_control
file_control_only_ok ok h = refl
file_control_only_ok _ h = cc

file_control_only_other :
    (e : ErrFileControl) → handle_file_control e ≡ unhandled → (n : ℤ) × (e ≡ other n)
unfolding handle_file_control
file_control_only_other (other n) h = (n, refl)
file_control_only_other _ h = cc

file_control_shape : (e : ErrFileControl) → HasShape (handle_file_control e)
unfolding handle_file_control
file_control_shape ok = inl refl
file_control_shape (other n) = inr (inl refl)
file_control_shape _ = inr (inr (_, refl))

pub file_control-IsFaithful : IsFaithful file_control_error ErrFileControl.ok ErrFileControl.other
unfolding file_control_error
file_control-IsFaithful = record {
  shaped = file_control_shape;
  succeeds = refl;
  only_ok = file_control_only_ok;
  only_other = file_control_only_other;
  injective = injective_of_list file_control_error _ file_control-IsListed;
}
